-- ===== src/I18n/Maori.antt =====
-- The texts of internal/i18n/i18n.go for the language "mi".
use whatunga.Prelude.{[], ◌∷◌, Str, codes}
use whatunga.Prelude.Maps.{Map}
use whatunga.Prelude.Utf8.{utf8}

abbrev pub maori : Map Str
maori =
    (codes "app_name", utf8 "Whatunga")
    ∷ (codes "tagline", utf8 "He aroturuki RouterOS ngāwari.")
    ∷ (codes "nav_dashboard", utf8 "Papa Mataaho")
    ∷ (codes "nav_account", utf8 "Pūkete")
    ∷ (codes "nav_logout", utf8 "Takiputa")
    ∷ (codes "login_title", utf8 "Takiuru")
    ∷ (codes "username", utf8 "Ingoa Kaiwhakamahi")
    ∷ (codes "password", utf8 "Kupuhipa")
    ∷ (codes "login_button", utf8 "Takiuru")
    ∷ (codes "invalid_credentials", utf8 "He hē te ingoa kaiwhakamahi, te kupuhipa rānei.")
    ∷ (codes "change_password_title", utf8 "Whakarerekē kupuhipa")
    ∷ (codes "current_password", utf8 "Kupuhipa o nāianei")
    ∷ (codes "new_password", utf8 "Kupuhipa hou")
    ∷ (codes "confirm_password", utf8 "Whakaū kupuhipa hou")
    ∷ (codes "update_button", utf8 "Whakahou kupuhipa")
    ∷ (codes "password_updated", utf8 "Kua whakahoutia te kupuhipa.")
    ∷ (codes "password_mismatch", utf8 "Kāore e rite ana te kupuhipa hou me te whakaūnga.")
    ∷ (codes "incorrect_current_password", utf8 "He hē te kupuhipa o nāianei.")
    ∷ (codes "password_too_short", utf8 "Me neke atu i te 8 pūāhua te kupuhipa hou.")
    ∷ (codes "device", utf8 "Pūrere")
    ∷ (codes "devices", utf8 "Ngā Pūrere")
    ∷ (codes "cpu_load", utf8 "Taumaha CPU")
    ∷ (codes "uptime", utf8 "Wā Oranga")
    ∷ (codes "version", utf8 "Putanga RouterOS")
    ∷ (codes "board_name", utf8 "Papa")
    ∷ (codes "interfaces", utf8 "Ngā Atanga")
    ∷ (codes "running", utf8 "E Rere Ana")
    ∷ (codes "stopped", utf8 "Kua Mutu")
    ∷ (codes "no_devices", utf8 "Kāore anō he raraunga — e tatari ana mō te pae tuatahi.")
    ∷ (codes "welcome", utf8 "Kua takiuru ko")
    ∷ (codes "language", utf8 "Reo")
    ∷ (codes "last_checked", utf8 "Tirohia whakamutunga")
    ∷ (codes "rx", utf8 "Kua Riro Mai")
    ∷ (codes "tx", utf8 "Kua Tukuna")
    ∷ (codes "back_to_dashboard", utf8 "Hoki ki te Papa Mataaho")
    ∷ (codes "health", utf8 "Hauora")
    ∷ (codes "power_state", utf8 "Tūnga Hiko")
    ∷ (codes "memory", utf8 "Pūmahara")
    ∷ (codes "kind_routeros", utf8 "MikroTik RouterOS")
    ∷ (codes "kind_ilo", utf8 "HPE iLO")
    ∷ (codes "kind_windows", utf8 "Windows Server")
    ∷ (codes "kind_snmp_firewall", utf8 "Ahi Taiapa (SNMP)")
    ∷ (codes "status_page_title", utf8 "Tūnga Pūnaha")
    ∷ (codes "status_page_subtitle", utf8 "Te tūnga ora o ngā pūrere e arotakengia ana.")
    ∷ (codes "status_up", utf8 "E Mahi Ana")
    ∷ (codes "status_down", utf8 "Kua Hinga")
    ∷ (codes "status_unknown", utf8 "Kāore e Mōhiotia")
    ∷ []
