-- ===== src/I18n/Chinese.antt =====
-- The texts of internal/i18n/i18n.go for the language "zh".
use whatunga.Prelude.{[], ◌∷◌, Str, codes}
use whatunga.Prelude.Maps.{Map}
use whatunga.Prelude.Utf8.{utf8}

abbrev pub chinese : Map Str
chinese =
    (codes "app_name", utf8 "Whatunga 网络看护")
    ∷ (codes "tagline", utf8 "简易 RouterOS 监控工具。")
    ∷ (codes "nav_dashboard", utf8 "仪表盘")
    ∷ (codes "nav_account", utf8 "账户")
    ∷ (codes "nav_logout", utf8 "退出登录")
    ∷ (codes "login_title", utf8 "登录")
    ∷ (codes "username", utf8 "用户名")
    ∷ (codes "password", utf8 "密码")
    ∷ (codes "login_button", utf8 "登录")
    ∷ (codes "invalid_credentials", utf8 "用户名或密码不正确。")
    ∷ (codes "change_password_title", utf8 "修改密码")
    ∷ (codes "current_password", utf8 "当前密码")
    ∷ (codes "new_password", utf8 "新密码")
    ∷ (codes "confirm_password", utf8 "确认新密码")
    ∷ (codes "update_button", utf8 "更新密码")
    ∷ (codes "password_updated", utf8 "密码更新成功。")
    ∷ (codes "password_mismatch", utf8 "新密码与确认密码不一致。")
    ∷ (codes "incorrect_current_password", utf8 "当前密码不正确。")
    ∷ (codes "password_too_short", utf8 "新密码长度至少需要 8 个字符。")
    ∷ (codes "device", utf8 "设备")
    ∷ (codes "devices", utf8 "设备列表")
    ∷ (codes "cpu_load", utf8 "CPU 负载")
    ∷ (codes "uptime", utf8 "运行时间")
    ∷ (codes "version", utf8 "RouterOS 版本")
    ∷ (codes "board_name", utf8 "主板")
    ∷ (codes "interfaces", utf8 "网络接口")
    ∷ (codes "running", utf8 "运行中")
    ∷ (codes "stopped", utf8 "已停止")
    ∷ (codes "no_devices", utf8 "暂无数据 — 等待首次轮询。")
    ∷ (codes "welcome", utf8 "已登录：")
    ∷ (codes "language", utf8 "语言")
    ∷ (codes "last_checked", utf8 "最后检查时间")
    ∷ (codes "rx", utf8 "接收")
    ∷ (codes "tx", utf8 "发送")
    ∷ (codes "back_to_dashboard", utf8 "返回仪表盘")
    ∷ (codes "health", utf8 "健康状态")
    ∷ (codes "power_state", utf8 "电源状态")
    ∷ (codes "memory", utf8 "内存")
    ∷ (codes "kind_routeros", utf8 "MikroTik RouterOS")
    ∷ (codes "kind_ilo", utf8 "HPE iLO")
    ∷ (codes "kind_windows", utf8 "Windows 服务器")
    ∷ (codes "kind_snmp_firewall", utf8 "防火墙（SNMP）")
    ∷ (codes "status_page_title", utf8 "系统状态")
    ∷ (codes "status_page_subtitle", utf8 "受监控设备的实时状态。")
    ∷ (codes "status_up", utf8 "运行正常")
    ∷ (codes "status_down", utf8 "已宕机")
    ∷ (codes "status_unknown", utf8 "未知")
    ∷ []
