-- ===== src/Monitor/IloPoller.antt =====
-- internal/monitor/ilo_poller.go: a server's state over Redfish. HTTP, the decoding of JSON, and
-- the float64 of the memory are arguments.
pub mod Requests
use whatunga.Prelude.{
  ℕ, Bool, true, false, Option, none, some, List, [], ◌∷◌, ◌++◌, Str, codes, ◌==◌, if◌then◌else◌,
  ◌⊎◌, inl, inr,
}
use whatunga.Prelude.Int.{ℤ, pos}
use whatunga.Monitor.{Time, SystemStatus, Snapshot, kind_ilo}

pub record IloPoller : Type 0 where
  pub device : Str
  pub base_url : Str
  pub username : Str
  pub password : Str

-- redfishSystem, with the memory in gibibytes.
pub record RedfishSystem (Float : Type 0) : Type 0 where
  pub model : Str
  pub power_state : Str
  pub bios_version : Str
  pub health : Str
  pub total_system_memory_gib : Float

-- A GET request of a URL with a user and a password: the status and the body, or none where it
-- cannot be made or answered.
pub record Outside {ℓ} (W : Type ℓ) (Float : Type 0) : Type ℓ where
  pub get : Str → Str → Str → W → W × Option (ℕ × Str)
  -- the identifiers of the members of a collection
  pub decode_collection : Str → Option (List Str)
  pub decode_system : Str → Option (RedfishSystem Float)
  -- int64(x * 1024 * 1024)
  pub kibibytes : Float → ℤ

pub data PollError : Type 0 where
  no_answer bad_json no_members : PollError
  unexpected_status : ℕ → PollError

unfoldable pub new_ilo_poller : Str → Str → Str → Str → IloPoller
new_ilo_poller device_name address username password = record {
  device = device_name;
  base_url = codes "https://" ++ address;
  username = username;
  password = password;
}

module _ {ℓ} {W : Type ℓ} {Float : Type 0} (outside : Outside W Float) (p : IloPoller) where
  decoded : {A : Type 0} → Option A → PollError ⊎ A
  decoded none = inl bad_json
  decoded (some a) = inr a

  body_of : {A : Type 0} → (Str → Option A) → Option (ℕ × Str) → PollError ⊎ A
  unfolding decoded
  body_of decode none = inl no_answer
  body_of decode (some (status, body)) =
      if status == 200 then decoded (decode body) else inl (unexpected_status status)

  unfoldable pub get_json : {A : Type 0} → (Str → Option A) → Str → W → W × (PollError ⊎ A)
  unfolding body_of
  get_json decode path w =
      let (w1, answer) = outside.get (p.base_url ++ path) p.username p.password w in
      (w1, body_of decode answer)

  first_member : W × (PollError ⊎ List Str) → W × (PollError ⊎ Str)
  first_member (w, inl e) = (w, inl e)
  first_member (w, inr []) = (w, inl no_members)
  first_member (w, inr (member ∷ members)) = (w, inr member)

  unfoldable pub discover_system_path : W → W × (PollError ⊎ Str)
  unfolding first_member
  discover_system_path w =
      first_member (get_json outside.decode_collection (codes "/redfish/v1/Systems/") w)

  snapshot_of : Time → W × (PollError ⊎ RedfishSystem Float) → W × (PollError ⊎ Snapshot)
  snapshot_of now (w, inl e) = (w, inl e)
  snapshot_of now (w, inr sys) = (
    w,
    inr (record {
      device = p.device;
      kind = kind_ilo;
      system = record {
        uptime = [];
        version = sys.bios_version;
        board_name = sys.model;
        health = sys.health;
        power_state = sys.power_state;
        cpu_load = pos 0;
        cpu_load_known = false;
        free_memory_kb = pos 0;
        total_mem_kb = outside.kibibytes sys.total_system_memory_gib;
        checked_at = now;
      };
      interfaces = [];
    }),
  )

  fetch_system : Time → W × (PollError ⊎ Str) → W × (PollError ⊎ Snapshot)
  unfolding snapshot_of
  fetch_system now (w, inl e) = (w, inl e)
  fetch_system now (w, inr path) = snapshot_of now (get_json outside.decode_system path w)

  unfoldable pub snapshot : Time → W → W × (PollError ⊎ Snapshot)
  unfolding fetch_system
  snapshot now w = fetch_system now (discover_system_path w)
