-- ===== src/NodeList/Connect/Lines.antt =====
-- What one line of the connect form does to the errors, the peers and the counter: the loop body of
-- `parseConnectInput` in frontend/src/lib/node-list.ts.
use mathlib.Core.Bool.{false≢true}
use garage_admin_console.Base.{
  ℕ, zero, suc, ◌+◌, ◌≤◌, ◌≡◌, refl, ◌≢◌, ◌⊎◌, inl, inr, true, false, not, some, List, [], ◌∷◌,
  ◌++◌, map, Text, text, trim, filter, length, contains, includes, arith, Bool-cases, is_empty, eqb,
  Option-cases, is_some, length-append,
}
use garage_admin_console.NodeList.Connect.{
  after_hex, after_at, after_id, is_peer, contains_at, has_id, check_peer, count_line, connect_line,
  connect_lines, ConnectState, report, too_many,
}

-- The lines of the input that are not blank, trimmed.
abbrev pub filled_lines : List Text → List Text
filled_lines raws = filter (λ v. not (is_empty v)) (map trim raws)

includes_tail : (c : ℕ) (s t : Text) → includes s t ≡ true → includes (c ∷ s) t ≡ true
includes_tail c s t h = ground arith

after_hex-includes :
    (n : ℕ) (s rest t : Text)
    → after_hex n s ≡ some rest
    → includes rest t ≡ true
    → includes s t ≡ true
unfolding after_hex
after_hex-includes zero s rest t e h = ground arith
after_hex-includes (suc n) [] rest t e h = cc
after_hex-includes (suc n) (c ∷ s) rest t e h =
    includes_tail c s t (after_hex-includes n s rest t (ground arith) h)

after_at-includes : (s : Text) → is_some (after_at s) ≡ true → contains_at s ≡ true
unfolding after_at text
after_at-includes [] h = cc
after_at-includes (c ∷ s) h = ground arith

-- A text that the pattern accepts passes the two tests that stand before it.
peer-has_id : (v : Text) → is_peer v ≡ true → has_id v ≡ true
unfolding is_peer
peer-has_id v h = ground arith

has_id-contains_at : (v : Text) → has_id v ≡ true → contains_at v ≡ true
unfolding after_id
has_id-contains_at v h = elim (Option-cases (after_hex 64 v)) [
  | inl e ↦ absurd (false≢true (rw (e, after_id) at h))
  | inr (rest, e) ↦
      after_hex-includes 64 v rest (text "@") e (after_at-includes rest (rw (e, after_id) at h))
]

abbrev accept : Text → ConnectState → ConnectState
accept v s = record s { seen = s.seen ++ (v ∷ []); peers = s.peers ++ (v ∷ []) }

pub check_peer-eq-accept :
    (i : ℕ) (v : Text) (s : ConnectState)
    → is_peer v ≡ true
    → contains s.seen v ≡ false
    → check_peer i v s ≡ accept v s
unfolding check_peer
check_peer-eq-accept i v s h k =
    rw (has_id-contains_at v (peer-has_id v h), peer-has_id v h, h, k) refl

length-report :
    (i : ℕ) (m : Text) (s : ConnectState) → length (report i m s).errors ≡ length s.errors + 1
length-report i m s = length-append s.errors _

pub check_peer_cases :
    (i : ℕ) (v : Text) (s : ConnectState)
    → ((is_peer v ≡ true) × (contains s.seen v ≡ false))
      ⊎ (length (check_peer i v s).errors ≡ length s.errors + 1)
unfolding check_peer
check_peer_cases i v s = elim (Bool-cases (contains_at v)) [
  | inr no_at ↦ inr (rw no_at (length-report i _ s))
  | inl at ↦ elim (Bool-cases (has_id v)) [
    | inr no_id ↦ inr (rw (at, no_id) (length-report i _ s))
    | inl id ↦ elim (Bool-cases (is_peer v)) [
      | inr no_peer ↦ inr (rw (at, id, no_peer) (length-report i _ s))
      | inl peer ↦ elim (Bool-cases (contains s.seen v)) [
        | inl seen ↦ inr (rw (at, id, peer, seen) (length-report i _ s))
        | inr fresh ↦ inl (peer, fresh)
      ]
    ]
  ]
]

-- The loop never takes an error back.
pub check_peer-errors :
    (i : ℕ) (v : Text) (s : ConnectState) → length s.errors ≤ length (check_peer i v s).errors
check_peer-errors i v s = elim (check_peer_cases i v s) [
  | inl (peer, fresh) ↦ rw (check_peer-eq-accept i v s peer fresh) (omega arith)
  | inr longer ↦ omega arith
]

-- The counter grows, the peers stay, and past the limit there is an error.
count_line-count : (i : ℕ) (s : ConnectState) → (count_line i s).count ≡ s.count + 1
unfolding count_line
count_line-count i s = ground arith

pub count_line-seen : (i : ℕ) (s : ConnectState) → (count_line i s).seen ≡ s.seen
unfolding count_line
count_line-seen i s = ground arith

count_line-peers : (i : ℕ) (s : ConnectState) → (count_line i s).peers ≡ s.peers
unfolding count_line
count_line-peers i s = ground arith

count_line-errors : (i : ℕ) (s : ConnectState) → length s.errors ≤ length (count_line i s).errors
unfolding count_line
count_line-errors i s = ground (arith, length-report i too_many (record s { count = s.count + 1 }))

pub count_line_within :
    (i : ℕ) (s : ConnectState) → s.count ≢ 10 → count_line i s ≡ record s { count = s.count + 1 }
unfolding count_line
count_line_within i s h = elim (Bool-cases (eqb (s.count + 1) 11)) [
  | inl past ↦ absurd (h (ground arith))
  | inr within ↦ rw within refl
]

pub count_line_beyond :
    (i : ℕ) (s : ConnectState) → s.count ≡ 10 → length (count_line i s).errors ≡ length s.errors + 1
unfolding count_line
count_line_beyond i s h = elim (Bool-cases (eqb (s.count + 1) 11)) [
  | inl past ↦ rw past (length-report i _ (record s { count = s.count + 1 }))
  | inr within ↦ absurd (ground arith)
]

connect_line-errors :
    (i : ℕ) (raw : Text) (s : ConnectState) → length s.errors ≤ length (connect_line i raw s).errors
unfolding connect_line
connect_line-errors i raw s =
    ground (arith, check_peer-errors i (trim raw) (count_line i s), count_line-errors i s)

pub connect_lines-errors :
    (i : ℕ) (raws : List Text) (s : ConnectState)
    → length s.errors ≤ length (connect_lines i raws s).errors
unfolding connect_lines
connect_lines-errors i [] s = omega arith
connect_lines-errors i (raw ∷ raws) s = omega (
  arith,
  connect_line-errors (suc i) raw s,
  connect_lines-errors (suc i) raws (connect_line (suc i) raw s),
)
