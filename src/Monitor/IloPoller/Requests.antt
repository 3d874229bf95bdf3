-- ===== src/Monitor/IloPoller/Requests.antt =====
-- The two requests of a poll.
use whatunga.Prelude.{
  ℕ, ◌≡◌, refl, false, Option, some, List, [], ◌∷◌, ◌++◌, Str, codes, ◌==◌, inl, inr,
}
use whatunga.Prelude.Int.{pos}
use whatunga.Monitor.{Time, kind_ilo}
use whatunga.Monitor.IloPoller.{
  IloPoller, RedfishSystem, Outside, unexpected_status, discover_system_path, get_json, snapshot,
}

module _ {W : Type 0} {Float : Type 0} (outside : Outside W Float) (p : IloPoller)
    (now : Time) where
  abbrev collection_request : W → W × Option (ℕ × Str)
  collection_request w =
      outside.get (p.base_url ++ codes "/redfish/v1/Systems/") p.username p.password w

  -- A collection that is answered by a status other than 200, whatever its body, fails the poll, and
  -- the system is not asked for: the world is the one behind the first request.
  pub snapshot-unexpected_status :
      (w w1 : W) (status : ℕ) (body : Str)
      → collection_request w ≡ (w1, some (status, body))
      → (status == 200) ≡ false
      → snapshot outside p now w ≡ (w1, inl (unexpected_status status))
  unfolding snapshot discover_system_path get_json
  snapshot-unexpected_status w w1 status body e bad = rw (e, bad) refl

  -- With a collection and a system that are answered by 200 and decode, the system of the first
  -- member is fetched from the same server, and the snapshot has the poller's device, what the
  -- system says of itself, and no interfaces.
  pub snapshot-decoded :
      (w w1 w2 : W) (body1 body2 member : Str) (members : List Str) (sys : RedfishSystem Float)
      → collection_request w ≡ (w1, some (200, body1))
      → outside.decode_collection body1 ≡ some (member ∷ members)
      → outside.get (p.base_url ++ member) p.username p.password w1 ≡ (w2, some (200, body2))
      → outside.decode_system body2 ≡ some sys
      → snapshot outside p now w ≡ (
        w2,
        inr (record {
          device = p.device;
          kind = kind_ilo;
          system = record {
            uptime = [];
            version = sys.bios_version;
            board_name = sys.model;
            health = sys.health;
            power_state = sys.power_state;
            cpu_load = pos 0;
            cpu_load_known = false;
            free_memory_kb = pos 0;
            total_mem_kb = outside.kibibytes sys.total_system_memory_gib;
            checked_at = now;
          };
          interfaces = [];
        }),
      )
  unfolding snapshot discover_system_path get_json
  snapshot-decoded w w1 w2 body1 body2 member members sys e1 d1 e2 d2 = rw (e1, d1, e2, d2) refl
