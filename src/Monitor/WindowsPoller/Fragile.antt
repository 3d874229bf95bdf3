-- ===== src/Monitor/WindowsPoller/Fragile.antt =====
-- The status line and addresses, and the outputs that the comma-separated format does not carry.
use whatunga.Prelude.{
  ℕ, ◌≡◌, ◌≢◌, refl, ap, ◌∙◌, arith, Bool, true, false, some, none, List, [], ◌∷◌, ◌++◌,
  append_assoc, Str, codes, str_eq, if◌then◌else◌, inl, inr,
}
use whatunga.Prelude.Int.{ℤ, pos, negsuc, IsInt64}
use whatunga.Prelude.Decimal.{is_digit, digits_value, parse_uint, format_uint-ne-nil}
use whatunga.Prelude.Atoi.{format_int, atoi, atoi_bad, atoi-format_int}
use whatunga.Prelude.Split.{Without, split_n, split_n_part, cut_part, cut-Without}
use whatunga.Prelude.Trim.{EndsSolid, EndsSolid-append}
use whatunga.Monitor.{Time}
use whatunga.Monitor.Fields.{atoi_or, atoi64_or, atoi64_or-format_int, format_uptime}
use whatunga.Monitor.WindowsPoller.{
  interface_of_fields, interface_of_line, parse_status, status_of_fields, split_host_port,
}
use whatunga.Monitor.WindowsPoller.Csv.{
  Adapter, print_up, print_up-Without, counters, csv_line, csv_line-EndsSolid, starts_solid,
  starts_solid-append, trim_space_ended, not_nil_append, format_int-Without,
}

known : (s : Str) → starts_solid s ≡ true → str_eq s [] ≡ false
unfolding str_eq
known [] h = cc
known (c ∷ s) h = refl

module _ (cpu version model : Str) (free total uptime : ℤ) where
  abbrev tail : Str
  tail = format_int uptime ++ b',' ∷ (version ++ b',' ∷ model)

  -- The line that statusScript writes.
  abbrev pub status_line : Str
  status_line = cpu ++ b',' ∷ (format_int free ++ b',' ∷ (format_int total ++ b',' ∷ tail))

  split_n-status_line :
      Without b',' cpu
      → Without b',' version
      → split_n 6 b',' status_line
        ≡ cpu ∷ format_int free ∷ format_int total ∷ format_int uptime ∷ version ∷ model ∷ []
  split_n-status_line hc hv =
      split_n_part 4 b',' cpu (format_int free ++ b',' ∷ (format_int total ++ b',' ∷ tail)) hc
      ∙ ap (◌∷◌ cpu) (
          split_n_part 3 b',' (format_int free) (format_int total ++ b',' ∷ tail)
            (format_int-Without b',' free refl))
      ∙ ap (λ (l : List Str). cpu ∷ format_int free ∷ l)
          (split_n_part 2 b',' (format_int total) tail (format_int-Without b',' total refl))
      ∙ ap (λ (l : List Str). cpu ∷ format_int free ∷ format_int total ∷ l)
          (split_n_part 1 b',' (format_int uptime) (version ++ b',' ∷ model)
            (format_int-Without b',' uptime refl))
      ∙ ap (λ (l : List Str). cpu ∷ format_int free ∷ format_int total ∷ format_int uptime ∷ l)
          (split_n_part 0 b',' version model hv)
      ∙ (unfold split_n in refl)

  -- The status script's output, a line with a carriage return and a newline, becomes the status
  -- that it was written from, where the text of the load begins with an ASCII byte that is no space,
  -- that of the model ends with one, load and version hold no comma, and the numbers are int64. The
  -- load is the number that atoiOr reads from its text, with 0 for a text that is none, and it counts
  -- as known in both cases.
  pub parse_status-status_line :
      (now : Time)
      → starts_solid cpu ≡ true
      → EndsSolid model
      → Without b',' cpu
      → Without b',' version
      → IsInt64 free
      → IsInt64 total
      → IsInt64 uptime
      → parse_status now (status_line ++ 13 ∷ 10 ∷ [])
        ≡ inr (record {
          uptime = format_uptime uptime;
          version = version;
          board_name = model;
          health = [];
          power_state = [];
          cpu_load = atoi_or cpu (pos 0);
          cpu_load_known = true;
          free_memory_kb = free;
          total_mem_kb = total;
          checked_at = now;
        })
  unfolding parse_status status_of_fields
  parse_status-status_line now starts ends hc hv hf ht hu =
      let ended : EndsSolid status_line = EndsSolid-append cpu _ (
        EndsSolid-append (b',' ∷ []) _ (
          EndsSolid-append (format_int free) _ (
            EndsSolid-append (b',' ∷ []) _ (
              EndsSolid-append (format_int total) _ (
                EndsSolid-append (b',' ∷ []) _ (
                  EndsSolid-append (format_int uptime) _ (
                    EndsSolid-append (b',' ∷ []) _ (
                      EndsSolid-append version _
                        (EndsSolid-append (b',' ∷ []) model ends))))))))) in
      rw
        (
          trim_space_ended status_line (13 ∷ 10 ∷ [])
              (starts_solid-append cpu
                (b',' ∷ (format_int free ++ b',' ∷ (format_int total ++ b',' ∷ tail))) starts)
              ended (inr (inr refl)),
          split_n-status_line hc hv,
          known cpu starts,
          atoi64_or-format_int free (pos 0) hf,
          atoi64_or-format_int total (pos 0) ht,
          atoi64_or-format_int uptime (pos 0) hu,
        )
        refl

-- An average load with a fraction, as of a server with two processors.
pub atoi_or-fraction :
    (d : ℕ) (s t : Str) → is_digit d ≡ true → atoi_or (d ∷ (s ++ b'.' ∷ t)) (pos 0) ≡ pos 0
unfolding atoi_or
atoi_or-fraction d s t h = rw (atoi_bad d s b'.' t refl) refl

-- A host and a port are taken apart again, where the host holds no colon and the port is an int64; an
-- address without a colon gets the port that WinRM has by default for the transport.
pub split_host_port_lem :
    (host : Str) (port : ℤ) (use_https : Bool)
    → Without b':' host
    → IsInt64 port
    → (split_host_port (host ++ b':' ∷ format_int port) use_https ≡ (host, port))
      × (split_host_port host use_https ≡ (host, if use_https then pos 5986 else pos 5985))
unfolding split_host_port
split_host_port_lem host port use_https h int = (
  rw (cut_part b':' host (format_int port) h, atoi-format_int port int) refl,
  rw (cut-Without b':' host h) (ground arith),
)

atoi_append_bad :
    (w : Str) (c : ℕ) (t : Str) → w ≢ [] → is_digit c ≡ false → atoi (w ++ c ∷ t) ≡ none
atoi_append_bad [] c t ne h = absurd (ne refl)
atoi_append_bad (d ∷ s) c t ne h = atoi_bad d s c t h

format_int-ne-nil : (n : ℤ) → format_int n ≢ []
unfolding format_int
format_int-ne-nil (pos n) = format_uint-ne-nil n
format_int-ne-nil (negsuc n) = λ e. cc

number_of_up : (b : Bool) → atoi (print_up b) ≡ none
unfolding atoi parse_uint digits_value
number_of_up true = refl
number_of_up false = refl

bytes_lost : (rx tx : ℤ) → atoi (format_int rx ++ b',' ∷ format_int tx) ≡ none
bytes_lost rx tx = atoi_append_bad (format_int rx) b',' (format_int tx) (format_int-ne-nil rx) refl

-- An adapter whose name holds a comma loses what stands behind the comma, and its numbers are lost:
-- with the name `front,back`, where the front has no comma and begins with an ASCII byte that is no
-- space, and the back has no comma, it is shown as `front`, running exactly when the back is `True`,
-- with no bytes received or sent, whatever its state and counters are.
pub interface_of_line-comma :
    (front back : Str) (up : Bool) (rx tx : ℤ)
    → starts_solid front ≡ true
    → Without b',' front
    → Without b',' back
    → interface_of_line
        (csv_line (record { name = front ++ b',' ∷ back; up = up; rx = rx; tx = tx }) ++ 13 ∷ [])
      ≡ some (record {
        name = front;
        type = codes "ethernet";
        running = str_eq back (codes "True");
        disabled = false;
        rx_bytes = pos 0;
        tx_bytes = pos 0;
      })
unfolding interface_of_line interface_of_fields atoi64_or
interface_of_line-comma front back up rx tx starts hf hb =
    let a : Adapter = record { name = front ++ b',' ∷ back; up = up; rx = rx; tx = tx } in
    let bytes : Str = format_int rx ++ b',' ∷ format_int tx in
    let rest : Str = back ++ b',' ∷ (print_up up ++ b',' ∷ bytes) in
    let line : csv_line a ≡ front ++ b',' ∷ rest =
      append_assoc front (b',' ∷ back) (b',' ∷ (print_up up ++ b',' ∷ bytes)) in
    let fields : split_n 4 b',' (csv_line a) ≡ front ∷ back ∷ print_up up ∷ bytes ∷ [] =
      ap (split_n 4 b',') line
      ∙ split_n_part 2 b',' front rest hf
      ∙ ap (◌∷◌ front) (split_n_part 1 b',' back (print_up up ++ b',' ∷ bytes) hb)
      ∙ ap (λ (l : List Str). front ∷ back ∷ l)
          (split_n_part 0 b',' (print_up up) bytes (print_up-Without up))
      ∙ (unfold split_n in refl) in
    rw
      (
        trim_space_ended (csv_line a) (13 ∷ [])
            (starts_solid-append (front ++ b',' ∷ back) (b',' ∷ counters a)
              (starts_solid-append front (b',' ∷ back) starts))
            (csv_line-EndsSolid a) (inr (inl refl)),
        not_nil_append (front ++ b',' ∷ back) b',' (counters a),
        fields,
        number_of_up up,
        bytes_lost rx tx,
      )
      refl
