-- ===== src/I18n/English.antt =====
-- The texts of internal/i18n/i18n.go for the language "en".
use whatunga.Prelude.{[], ◌∷◌, Str, codes}
use whatunga.Prelude.Maps.{Map}
use whatunga.Prelude.Utf8.{utf8}

abbrev pub english : Map Str
english =
    (codes "app_name", utf8 "Whatunga")
    ∷ (codes "tagline", utf8 "Simple RouterOS monitoring.")
    ∷ (codes "nav_dashboard", utf8 "Dashboard")
    ∷ (codes "nav_account", utf8 "Account")
    ∷ (codes "nav_logout", utf8 "Log out")
    ∷ (codes "login_title", utf8 "Sign in")
    ∷ (codes "username", utf8 "Username")
    ∷ (codes "password", utf8 "Password")
    ∷ (codes "login_button", utf8 "Sign in")
    ∷ (codes "invalid_credentials", utf8 "Incorrect username or password.")
    ∷ (codes "change_password_title", utf8 "Change password")
    ∷ (codes "current_password", utf8 "Current password")
    ∷ (codes "new_password", utf8 "New password")
    ∷ (codes "confirm_password", utf8 "Confirm new password")
    ∷ (codes "update_button", utf8 "Update password")
    ∷ (codes "password_updated", utf8 "Password updated successfully.")
    ∷ (codes "password_mismatch", utf8 "New password and confirmation do not match.")
    ∷ (codes "incorrect_current_password", utf8 "Current password is incorrect.")
    ∷ (codes "password_too_short", utf8 "New password must be at least 8 characters.")
    ∷ (codes "device", utf8 "Device")
    ∷ (codes "devices", utf8 "Devices")
    ∷ (codes "cpu_load", utf8 "CPU load")
    ∷ (codes "uptime", utf8 "Uptime")
    ∷ (codes "version", utf8 "RouterOS version")
    ∷ (codes "board_name", utf8 "Board")
    ∷ (codes "interfaces", utf8 "Interfaces")
    ∷ (codes "running", utf8 "Running")
    ∷ (codes "stopped", utf8 "Stopped")
    ∷ (codes "no_devices", utf8 "No device data yet — waiting for the first poll.")
    ∷ (codes "welcome", utf8 "Signed in as")
    ∷ (codes "language", utf8 "Language")
    ∷ (codes "last_checked", utf8 "Last checked")
    ∷ (codes "rx", utf8 "Received")
    ∷ (codes "tx", utf8 "Transmitted")
    ∷ (codes "back_to_dashboard", utf8 "Back to dashboard")
    ∷ (codes "health", utf8 "Health")
    ∷ (codes "power_state", utf8 "Power state")
    ∷ (codes "memory", utf8 "Memory")
    ∷ (codes "kind_routeros", utf8 "MikroTik RouterOS")
    ∷ (codes "kind_ilo", utf8 "HPE iLO")
    ∷ (codes "kind_windows", utf8 "Windows Server")
    ∷ (codes "kind_snmp_firewall", utf8 "Firewall (SNMP)")
    ∷ (codes "status_page_title", utf8 "System Status")
    ∷ (codes "status_page_subtitle", utf8 "Live status of monitored devices.")
    ∷ (codes "status_up", utf8 "Operational")
    ∷ (codes "status_down", utf8 "Down")
    ∷ (codes "status_unknown", utf8 "Unknown")
    ∷ []
