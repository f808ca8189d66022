-- ===== src/NodeList/Connect/Accepted.antt =====
-- Which texts of the connect dialog are accepted.
use mathlib.Core.List.{append-nil, append_assoc}
use garage_admin_console.Base.{
  ℕ, suc, ◌+◌, ◌≤◌, ◌≡◌, refl, ◌≢◌, inl, inr, ◌↔◌, true, false, List, [], ◌∷◌, ◌++◌, Text, ==_iff,
  trim, All, length, contains, contains-append, arith, Bool-cases, is_empty, IsDistinct, sym, ap,
  ◌∙◌,
}
use garage_admin_console.NodeList.Connect.{
  is_peer, check_peer, count_line, connect_line, connect_lines, parse_connect_input, ConnectState,
  ConnectLineError, split_lines, max_connect_nodes,
}
use garage_admin_console.NodeList.Connect.Lines.{
  check_peer-eq-accept, check_peer-errors, check_peer_cases, connect_lines-errors, count_line-seen,
  count_line_beyond, count_line_within, filled_lines,
}

-- What the loop asks of the values that it has still to read.
record Accepts (seen : List Text) (count : ℕ) (vs : List Text) : Type 0 where
  peers : All (λ v. is_peer v ≡ true) vs
  fresh : All (λ v. contains seen v ≡ false) vs
  distinct : IsDistinct vs
  few : count + length vs ≤ 10

-- A line that is not blank and leaves no error.
connect_line_accepted :
    (i : ℕ) (raw : Text) (s : ConnectState)
    → is_empty (trim raw) ≡ false
    → (connect_line i raw s).errors ≡ []
    → (is_peer (trim raw) ≡ true) × (contains s.seen (trim raw) ≡ false) × (s.count ≢ 10)
unfolding connect_line
connect_line_accepted i raw s filled e =
    let none_left : length (check_peer i (trim raw) (count_line i s)).errors ≡ 0 =
      ap length (rw filled at e) in
    elim (check_peer_cases i (trim raw) (count_line i s)) [
      | inl (peer, fresh) ↦ (
        peer,
        rw (count_line-seen i s) at fresh,
        (λ ten.
            omega
              (arith, count_line_beyond i s ten, check_peer-errors i (trim raw) (count_line i s))),
      )
      | inr longer ↦ absurd (omega arith)
    ]

-- The state after an accepted line.
abbrev taken : Text → ConnectState → ConnectState
taken v s = record s { seen = s.seen ++ (v ∷ []); peers = s.peers ++ (v ∷ []); count = s.count + 1 }

connect_line-eq-taken :
    (i : ℕ) (raw : Text) (s : ConnectState)
    → is_empty (trim raw) ≡ false
    → is_peer (trim raw) ≡ true
    → contains s.seen (trim raw) ≡ false
    → s.count ≢ 10
    → connect_line i raw s ≡ taken (trim raw) s
unfolding connect_line
connect_line-eq-taken i raw s filled peer fresh few =
    rw
      (
        filled,
        count_line_within i s few,
        check_peer-eq-accept i (trim raw) (record s { count = s.count + 1 }) peer fresh,
      )
      refl

fresh-snoc :
    (seen vs : List Text) (v : Text)
    → All (λ w. contains (seen ++ v ∷ []) w ≡ false) vs
      ↔ (All (λ w. contains seen w ≡ false) vs × All (λ w. v ≢ w) vs)
fresh-snoc seen [] v = ((λ _. (tt, tt)), (λ _. tt))
fresh-snoc seen (w ∷ vs) v =
    grind (arith, fresh-snoc seen vs v, contains-append seen (v ∷ []) w, ==_iff v w)

Accepts-cons :
    (seen : List Text) (n : ℕ) (v : Text) (vs : List Text)
    → is_peer v ≡ true
    → contains seen v ≡ false
    → Accepts (seen ++ v ∷ []) (n + 1) vs
    → Accepts seen n (v ∷ vs)
Accepts-cons seen n v vs p f a =
    let (old, new) = (fresh-snoc seen vs v).0 a.fresh in
    record {
      peers = (p, a.peers);
      fresh = (f, old);
      distinct = (new, a.distinct);
      few = let h = a.few in omega arith;
    }

Accepts-uncons :
    (seen : List Text) (n : ℕ) (v : Text) (vs : List Text)
    → Accepts seen n (v ∷ vs)
    → Accepts (seen ++ v ∷ []) (n + 1) vs
Accepts-uncons seen n v vs a = record {
  peers = a.peers.1;
  fresh = (fresh-snoc seen vs v).1 (a.fresh.1, a.distinct.0);
  distinct = a.distinct.1;
  few = let h = a.few in omega arith;
}

errors_before :
    (i : ℕ) (raws : List Text) (s : ConnectState)
    → (connect_lines i raws s).errors ≡ []
    → s.errors ≡ []
errors_before i raws s e =
    nil_of_length s.errors (omega (arith, ap length e, connect_lines-errors i raws s))
  where
    nil_of_length : (es : List ConnectLineError) → length es ≡ 0 → es ≡ []
    nil_of_length [] h = refl
    nil_of_length (x ∷ es) h = absurd (omega arith)

connect_line_blank :
    (i : ℕ) (raw : Text) (s : ConnectState) → is_empty (trim raw) ≡ true → connect_line i raw s ≡ s
unfolding connect_line
connect_line_blank i raw s blank = rw blank refl

-- No error is left exactly if the loop's demands hold; then all values were taken.
abbrev Takes : ℕ → List Text → ConnectState → Type 0
Takes i raws s =
    Accepts s.seen s.count (filled_lines raws)
    × ((connect_lines i raws s).peers ≡ s.peers ++ filled_lines raws)

connect_lines_sound :
    (i : ℕ) (raws : List Text) (s : ConnectState)
    → s.count ≤ 10
    → (connect_lines i raws s).errors ≡ []
    → Takes i raws s
unfolding connect_lines
connect_lines_sound i [] s few e =
    (record { peers = tt; fresh = tt; distinct = tt; few = omega arith }, sym (append-nil s.peers))
connect_lines_sound i (raw ∷ raws) s few e = elim (Bool-cases (is_empty (trim raw))) [
  | inl blank ↦
      let same = connect_line_blank (suc i) raw s blank in
      let (a, p) = connect_lines_sound (suc i) raws s few (rw (same, connect_lines) at e) in
      rw (blank, same, connect_lines) (a, p)
  | inr filled ↦
      let now = errors_before (suc i) raws (connect_line (suc i) raw s) e in
      let (peer, fresh, below) = connect_line_accepted (suc i) raw s filled now in
      let same = connect_line-eq-taken (suc i) raw s filled peer fresh below in
      let (a, p) =
        connect_lines_sound (suc i) raws (taken (trim raw) s) (omega arith)
          (rw (same, connect_lines) at e) in
      rw (filled, same, connect_lines)
        (
          Accepts-cons s.seen s.count (trim raw) (filled_lines raws) peer fresh a,
          p ∙ append_assoc s.peers (trim raw ∷ []) (filled_lines raws),
        )
]

connect_lines_complete :
    (i : ℕ) (raws : List Text) (s : ConnectState)
    → s.errors ≡ []
    → Accepts s.seen s.count (filled_lines raws)
    → (connect_lines i raws s).errors ≡ []
unfolding connect_lines
connect_lines_complete i [] s e a = e
connect_lines_complete i (raw ∷ raws) s e a = elim (Bool-cases (is_empty (trim raw))) [
  | inl blank ↦
      rw (connect_line_blank (suc i) raw s blank, connect_lines)
        (connect_lines_complete (suc i) raws s e (rw blank at a))
  | inr filled ↦
      let a' : Accepts s.seen s.count (trim raw ∷ filled_lines raws) = rw filled at a in
      let same =
        connect_line-eq-taken (suc i) raw s filled a'.peers.0 a'.fresh.0
          (let h = a'.few in omega arith) in
      rw (same, connect_lines)
        (connect_lines_complete (suc i) raws (taken (trim raw) s) e
          (Accepts-uncons s.seen s.count (trim raw) (filled_lines raws) a'))
]

fresh_nothing : (vs : List Text) → All (λ v. contains [] v ≡ false) vs
fresh_nothing [] = tt
fresh_nothing (v ∷ vs) = (refl, fresh_nothing vs)

abbrev begin : ConnectState
begin = record { peers = []; errors = []; seen = []; count = 0 }

-- The input has no error exactly when its nonblank lines, trimmed, are peers of the form
-- `<64 hex digits>@<host>:<port>`, at most ten of them and no two alike.
pub parse_connect_input-errors_iff :
    (input : Text)
    → let vs = filled_lines (split_lines input) in
      ((parse_connect_input input).errors ≡ [])
      ↔ (All (λ v. is_peer v ≡ true) vs × IsDistinct vs × (length vs ≤ max_connect_nodes))
unfolding parse_connect_input
parse_connect_input-errors_iff input = (
  (λ e.
      let (a, _) = connect_lines_sound 0 (split_lines input) begin (omega arith) e in
      (a.peers, a.distinct, let h = a.few in omega arith)),
  (λ h.
      connect_lines_complete 0 (split_lines input) begin refl
        (record { peers = h.0; fresh = fresh_nothing _; distinct = h.1; few = omega arith })),
)

-- When the input has no error, the peers to send are its nonblank lines, trimmed, in their order.
pub parse_connect_input-peers :
    (input : Text)
    → (parse_connect_input input).errors ≡ []
    → (parse_connect_input input).peers ≡ filled_lines (split_lines input)
unfolding parse_connect_input
parse_connect_input-peers input e =
    let (_, p) = connect_lines_sound 0 (split_lines input) begin (omega arith) e in p
