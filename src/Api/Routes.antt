-- ===== src/Api/Routes.antt =====
-- What the paths of the API answer, over what was polled.
use Prim.Native.Nat.{max}
use whatunga.Prelude.{
  All, map, ℕ, ◌≡◌, ◌≢◌, refl, ap, ◌∙◌, sym, List, [], ◌∷◌, ◌++◌, append-nil, Str, codes, str_eq,
  has_prefix, if◌then◌else◌, is_nil, take_last, last?, arith,
}
use whatunga.Prelude.Int.{ℤ, pos_part}
use whatunga.Prelude.Split.{split, join, Without, split-join}
use whatunga.Prelude.Paths.{unescape, is_at, is_below, decoded, parts_eq, parts_below, IsKept}
use whatunga.Prelude.Paths.Clean.{IsKept-of, redirection-join, parts_of-join, whole_parts}
use whatunga.Monitor.{Snapshot}
use whatunga.Store.{History, new_history}
use whatunga.Store.Refinement.{record_all, of_device, all-record_all, latest-record_all}
use whatunga.Api.{
  history_of, no_data, latest_or_error, handle_device_latest, handle_device_history, trim_left,
  trim_right, trim_prefix, devices_path, dispatch, handle_device_route, serve,
}

trim_left-Without : (s t : Str) → s ≢ [] → Without b'/' s → trim_left (s ++ t) ≡ s ++ t
unfolding trim_left
trim_left-Without [] t ne h = absurd (ne refl)
trim_left-Without (c ∷ s) t ne h = rw h.0 refl

trim_right-Without : (s : Str) → Without b'/' s → trim_right s ≡ s
unfolding trim_right
trim_right-Without [] h = refl
trim_right-Without (c ∷ s) h = rw (h.0, trim_right-Without s h.1) refl

trim_right-append :
    (s : Str) (c : ℕ) (t : Str) → trim_right (c ∷ t) ≡ c ∷ t → trim_right (s ++ c ∷ t) ≡ s ++ c ∷ t
unfolding trim_right
trim_right-append [] c t e = e
trim_right-append (d ∷ []) c t e = rw e (ground arith)
trim_right-append (d ∷ d2 ∷ s) c t e = rw (trim_right-append (d2 ∷ s) c t e) (ground arith)

api_part : IsKept (codes "api")
unfolding str_eq
api_part = IsKept-of (codes "api") refl refl

v1_part : IsKept (codes "v1")
unfolding str_eq
v1_part = IsKept-of (codes "v1") refl refl

devices_part : IsKept (codes "devices")
unfolding str_eq
devices_part = IsKept-of (codes "devices") refl refl

history_part : IsKept (codes "history")
unfolding str_eq
history_part = IsKept-of (codes "history") refl refl

serve-devices_path :
    (h : History) (part : Str) (parts : List Str)
    → All IsKept (part ∷ parts)
    → serve h (join b'/' ([] ∷ codes "api" ∷ codes "v1" ∷ codes "devices" ∷ part ∷ parts))
      ≡ dispatch h (split b'/' (trim_right (trim_left (join b'/' (map unescape (part ∷ parts))))))
unfolding serve handle_device_route trim_prefix str_eq has_prefix join is_at is_below decoded
    parts_eq parts_below unescape
serve-devices_path h part parts kept =
    let all : All IsKept (codes "api" ∷ codes "v1" ∷ codes "devices" ∷ part ∷ parts) =
      (api_part, (v1_part, (devices_part, kept))) in
    rw
      (
        redirection-join (codes "api") (codes "v1" ∷ codes "devices" ∷ part ∷ parts) all,
        parts_of-join [] (codes "api" ∷ codes "v1" ∷ codes "devices" ∷ part ∷ parts)
            (tt, whole_parts (codes "api" ∷ codes "v1" ∷ codes "devices" ∷ part ∷ parts) all),
      )
      refl

-- A device's name as a part of a path: not empty, and without a slash.
abbrev pub IsPart : Str → Type 0
IsPart name = (name ≢ []) × Without b'/' name

-- The same of a name that is given as it stands escaped in a path, which the mux does not clean
-- away.
abbrev pub IsEscapedPart : Str → Type 0
IsEscapedPart raw = IsKept raw × IsPart (unescape raw)

dispatch-latest :
    (h : History) (name : Str) → name ≢ [] → dispatch h (name ∷ []) ≡ handle_device_latest h name
unfolding dispatch
dispatch-latest h [] ne = absurd (ne refl)
dispatch-latest h (c ∷ name) ne = refl

dispatch-history :
    (h : History) (name : Str)
    → name ≢ []
    → dispatch h (name ∷ codes "history" ∷ []) ≡ handle_device_history h name
unfolding dispatch str_eq
dispatch-history h [] ne = absurd (ne refl)
dispatch-history h (c ∷ name) ne = refl

serve-latest :
    (h : History) (raw : Str)
    → IsEscapedPart raw
    → serve h (devices_path ++ raw) ≡ handle_device_latest h (unescape raw)
unfolding join
serve-latest h raw (kept, (ne, part)) =
    let name = unescape raw in
    let left : trim_left name ≡ name =
      ap trim_left (sym (append-nil name)) ∙ trim_left-Without name [] ne part ∙ append-nil name in
    serve-devices_path h raw [] (kept, tt)
    ∙ ap (λ (s : Str). dispatch h (split b'/' (trim_right s))) left
    ∙ ap (λ (s : Str). dispatch h (split b'/' s)) (trim_right-Without name part)
    ∙ ap (dispatch h) (split-join b'/' name [] (part, tt))
    ∙ dispatch-latest h name ne

serve-history :
    (h : History) (raw : Str)
    → IsEscapedPart raw
    → serve h (devices_path ++ (raw ++ codes "/history")) ≡ handle_device_history h (unescape raw)
unfolding join trim_right unescape
serve-history h raw (kept, (ne, part)) =
    let name = unescape raw in
    serve-devices_path h raw (codes "history" ∷ []) (kept, (history_part, tt))
    ∙ ap (λ (s : Str). dispatch h (split b'/' (trim_right s)))
        (trim_left-Without name (codes "/history") ne part)
    ∙ ap (λ (s : Str). dispatch h (split b'/' s))
        (trim_right-append name b'/' (codes "history") refl)
    ∙ ap (dispatch h) (split-join b'/' name (codes "history" ∷ []) (part, (ground arith, tt)))
    ∙ dispatch-history h name ne

-- After any sequence of snapshots, given to a new history in order, the path of a device answers
-- with the last of its snapshots, or with the error that there is none; its path of the history
-- with the last `capacity` of them, or with that error. The device's name is not empty and has no
-- slash, and in the escaped form in which it stands in the path it is neither `.` nor `..`.
pub serve-record_all :
    (capacity : ℤ) (ss : List Snapshot) (raw : Str)
    → IsEscapedPart raw
    → let h = record_all (new_history capacity) ss in
      let name = unescape raw in
      let kept = take_last (max 1 (pos_part capacity)) (of_device name ss) in
      (serve h (devices_path ++ raw) ≡ latest_or_error name (last? (of_device name ss)))
      × (serve h (devices_path ++ (raw ++ codes "/history")) ≡ (
          if is_nil kept
          then no_data name
          else record { status = 200; body = history_of name kept }))
unfolding handle_device_latest handle_device_history
serve-record_all capacity ss raw part =
    let h = record_all (new_history capacity) ss in
    let name = unescape raw in
    (
      serve-latest h raw part ∙ ap (latest_or_error name) (latest-record_all capacity ss name),
      serve-history h raw part
          ∙ ap
              (λ (snaps : List Snapshot).
                if is_nil snaps
                then no_data name
                else record { status = 200; body = history_of name snaps })
              (all-record_all capacity ss name),
    )
