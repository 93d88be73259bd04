-- ===== src/Mcp.antt =====
-- internal/modules/v2/mcp: the permission test of server.go, and the tool ovh_reboot of tools.go;
-- Reading has the tools that read.
pub mod Cooldown
pub mod Race
pub mod Reading
mod Tests
use serveo_api_golang.Prelude.{
  ℕ, ◌-◌, ◌*◌, ◌^◌, Bool, true, false, Option, none, some, List, [], ◌∷◌, ◌++◌, if◌then◌else◌, ltb,
}
use serveo_api_golang.Text.{Str, codes, text_eq}
use serveo_api_golang.Http.{Context, get_user_permissions}
use serveo_api_golang.Rbac.{has_permission}

pub data ToolResult : Type 0 where
  tool_text tool_error : Str → ToolResult

-- hasPermission of this package: the text of the error
unfoldable pub permission_error : Context → Str → Option Str
unfolding get_user_permissions
permission_error ctx required_perm = elim (get_user_permissions ctx) [
  | none ↦ some (codes "unauthorized: missing user permissions in context")
  | some permissions ↦
      if has_permission permissions required_perm
      then none
      else some (codes "forbidden: missing required permission '" ++ required_perm ++ codes "'")
]

-- 15 * time.Minute, in nanoseconds
abbrev pub cooldown : ℕ
cooldown = 15 * 60 * 10 ^ 9

-- `exists && time.Since(lastReboot) < 15*time.Minute`
unfoldable pub is_cooling : Option ℕ → ℕ → Bool
is_cooling none now = false
is_cooling (some last) now = ltb (now - last) cooldown

-- lastRebootMap
abbrev pub Reboots : Type 0
Reboots = Str → Option ℕ

unfoldable pub mark : Str → ℕ → Reboots → Reboots
mark service now reboots name = if text_eq name service then some now else reboots name

-- The OVH client's Post with an error text; os.MkdirAll and os.WriteFile, whose errors are not
-- looked at; and json.Marshal.
pub record Outside (W : Type 0) : Type 0 where
  pub post : Str → W → W × Option Str
  pub mkdir_all : Str → W → W
  pub marshal : Reboots → Option Str
  pub write_file : Str → Str → W → W

-- What the calls of the tool share.
pub record Shared (W : Type 0) : Type 0 where
  pub last_reboot : Reboots
  pub world : W

abbrev pub reboot_path : Str → Str
reboot_path service = codes "/dedicated/server/" ++ service ++ codes "/reboot"

abbrev pub cooldown_active : ToolResult
cooldown_active = tool_error (codes "cooldown active: cannot reboot this server again so soon")

abbrev pub initiated : ToolResult
initiated = tool_text (codes "Server reboot initiated successfully")

-- A call of the tool between the sections that it runs one after the other.
pub data Phase : Type 0 where
  to_check to_post to_mark to_save : Phase
  ended : ToolResult → Phase

module _ {W : Type 0} (outside : Outside W) where
  -- the first use of the map, under its mutex
  unfoldable pub check : Str → ℕ → Shared W → Phase
  check service now s =
      if is_cooling (s.last_reboot service) now then ended cooldown_active else to_post

  abbrev after_post : Option Str → Phase
  after_post none = to_mark
  after_post (some e) = ended (tool_error (codes "Failed to reboot server: " ++ e))

  unfoldable pub post_reboot : Str → Shared W → Shared W × Phase
  post_reboot service s =
      let (w, r) = outside.post (reboot_path service) s.world in
      (record s { world = w }, after_post r)

  -- saveCooldowns, under the mutex again
  unfoldable pub save_cooldowns : Shared W → Shared W
  save_cooldowns s =
      let w = outside.mkdir_all (codes "data") s.world in
      record s {
        world = elim (outside.marshal s.last_reboot) [
          | none ↦ w
          | some b ↦ outside.write_file (codes "data/mcp_cooldowns.json") b w
        ];
      }

  -- one section of a call at a time of the clock
  unfoldable pub advance : Str → ℕ → Phase → Shared W → Shared W × Phase
  advance service now to_check s = (s, check service now s)
  advance service now to_post s = post_reboot service s
  advance service now to_mark s =
      (record s { last_reboot = mark service now s.last_reboot }, to_save)
  advance service now to_save s = (save_cooldowns s, ended initiated)
  advance service now (ended r) s = (s, ended r)

  abbrev finish : Shared W × Phase → Str → ℕ → Shared W × ToolResult
  finish (s, ended r) service later = (s, r)
  finish (s, _) service later =
      (save_cooldowns (record s { last_reboot = mark service later s.last_reboot }), initiated)

  abbrev after_check : Phase → Str → ℕ → Shared W → Shared W × ToolResult
  after_check (ended r) service later s = (s, r)
  after_check _ service later s = finish (post_reboot service s) service later

  -- the tool ovh_reboot with nothing in between its sections: the user's context, whether there is
  -- a client, the service name, `none` where the arguments are no map, and the times of the test
  -- and of the mark
  unfoldable pub ovh_reboot : Context → Bool → Option Str → ℕ → ℕ → Shared W → Shared W × ToolResult
  ovh_reboot ctx available arguments now later s = elim (permission_error ctx (codes "ovh.write")) [
    | some e ↦ (s, tool_error e)
    | none ↦
        if available
        then elim arguments [
          | none ↦ (s, tool_error (codes "Invalid arguments format"))
          | some service ↦ after_check (check service now s) service later s
        ]
        else (s, tool_error (codes "OVH client unavailable"))
  ]
