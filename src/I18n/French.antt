-- ===== src/I18n/French.antt =====
-- The texts of internal/i18n/i18n.go for the language "fr".
use whatunga.Prelude.{[], ◌∷◌, Str, codes}
use whatunga.Prelude.Maps.{Map}
use whatunga.Prelude.Utf8.{utf8}

abbrev pub french : Map Str
french =
    (codes "app_name", utf8 "Whatunga")
    ∷ (codes "tagline", utf8 "Surveillance RouterOS simplifiée.")
    ∷ (codes "nav_dashboard", utf8 "Tableau de bord")
    ∷ (codes "nav_account", utf8 "Compte")
    ∷ (codes "nav_logout", utf8 "Déconnexion")
    ∷ (codes "login_title", utf8 "Connexion")
    ∷ (codes "username", utf8 "Nom d'utilisateur")
    ∷ (codes "password", utf8 "Mot de passe")
    ∷ (codes "login_button", utf8 "Se connecter")
    ∷ (codes "invalid_credentials", utf8 "Nom d'utilisateur ou mot de passe incorrect.")
    ∷ (codes "change_password_title", utf8 "Changer le mot de passe")
    ∷ (codes "current_password", utf8 "Mot de passe actuel")
    ∷ (codes "new_password", utf8 "Nouveau mot de passe")
    ∷ (codes "confirm_password", utf8 "Confirmer le nouveau mot de passe")
    ∷ (codes "update_button", utf8 "Mettre à jour")
    ∷ (codes "password_updated", utf8 "Mot de passe mis à jour avec succès.")
    ∷ (
      codes "password_mismatch",
      utf8 "Le nouveau mot de passe et la confirmation ne correspondent pas.",
    )
    ∷ (codes "incorrect_current_password", utf8 "Le mot de passe actuel est incorrect.")
    ∷ (
      codes "password_too_short",
      utf8 "Le nouveau mot de passe doit contenir au moins 8 caractères.",
    )
    ∷ (codes "device", utf8 "Appareil")
    ∷ (codes "devices", utf8 "Appareils")
    ∷ (codes "cpu_load", utf8 "Charge CPU")
    ∷ (codes "uptime", utf8 "Disponibilité")
    ∷ (codes "version", utf8 "Version RouterOS")
    ∷ (codes "board_name", utf8 "Carte")
    ∷ (codes "interfaces", utf8 "Interfaces")
    ∷ (codes "running", utf8 "En marche")
    ∷ (codes "stopped", utf8 "Arrêtée")
    ∷ (codes "no_devices", utf8 "Aucune donnée pour le moment — en attente du premier sondage.")
    ∷ (codes "welcome", utf8 "Connecté en tant que")
    ∷ (codes "language", utf8 "Langue")
    ∷ (codes "last_checked", utf8 "Dernière vérification")
    ∷ (codes "rx", utf8 "Reçu")
    ∷ (codes "tx", utf8 "Transmis")
    ∷ (codes "back_to_dashboard", utf8 "Retour au tableau de bord")
    ∷ (codes "health", utf8 "État de santé")
    ∷ (codes "power_state", utf8 "État d'alimentation")
    ∷ (codes "memory", utf8 "Mémoire")
    ∷ (codes "kind_routeros", utf8 "MikroTik RouterOS")
    ∷ (codes "kind_ilo", utf8 "HPE iLO")
    ∷ (codes "kind_windows", utf8 "Windows Server")
    ∷ (codes "kind_snmp_firewall", utf8 "Pare-feu (SNMP)")
    ∷ (codes "status_page_title", utf8 "État du système")
    ∷ (codes "status_page_subtitle", utf8 "État en direct des appareils surveillés.")
    ∷ (codes "status_up", utf8 "Opérationnel")
    ∷ (codes "status_down", utf8 "En panne")
    ∷ (codes "status_unknown", utf8 "Inconnu")
    ∷ []
