-- ===== src/Connections/Invariant.antt =====
-- The invariant of the connection table: at most one active connection for a user, an instance
-- and a mailbox, and at most one row for a user, an instance and a sequence number.
use Prim.Native.Nat.{max}
use lehen.Prelude.{
  ℕ, ◌+◌, ◌≤◌, String, Bool, true, false, none, some, List, [], ◌∷◌, ◌≡◌, refl, sym, subst, ap, ◌∙◌,
  map, arith, ◌&&◌, count_if, filter, length, length-filter, eqb, eq_iff, if◌then◌else◌, inl, inr,
  Bool-cases,
}
use lehen.Prelude.Marked.{is_listed, mark, count_if-map-le}
use lehen.Arcade.{Arcade, select}
use lehen.Arcade.Counts.{count_if-insert}
use lehen.Hub.{Connection, World}
use lehen.Connections.Rows.{is_of, is_active_for, max_seq, next_seq}
use lehen.Connections.Loops.{id_of}

abbrev pub has_seq : String → String → ℕ → Connection → Bool
has_seq sub instance_id n c = is_of sub instance_id c && eqb c.connection_seq n

pub record IsWellFormed (xs : List Connection) : Type 0 where
  pub one_active :
      (sub instance_id ext : String) → count_if (is_active_for sub instance_id ext) xs ≤ 1
  pub one_per_seq : (sub instance_id : String) (n : ℕ) → count_if (has_seq sub instance_id n) xs ≤ 1

-- A rewriting that keeps the keys of a row, and activates none.
pub record Retires (f : Connection → Connection) : Type 0 where
  pub keys :
      (sub instance_id : String) (n : ℕ) (c : Connection)
      → has_seq sub instance_id n (f c) ≡ true
      → has_seq sub instance_id n c ≡ true
  pub activity :
      (sub instance_id ext : String) (c : Connection)
      → is_active_for sub instance_id ext (f c) ≡ true
      → is_active_for sub instance_id ext c ≡ true

pub Retires-mark :
    (f : Connection → Connection) (ts : List Connection) → Retires f → Retires (mark id_of f ts)
Retires-mark f ts r = record {
  keys = λ sub i n c. elim (Bool-cases (is_listed id_of ts c)) [
    | inl changed ↦ rw changed (r.keys sub i n c)
    | inr kept ↦ rw kept (λ h. h)
  ];
  activity = λ sub i ext c. elim (Bool-cases (is_listed id_of ts c)) [
    | inl changed ↦ rw changed (r.activity sub i ext c)
    | inr kept ↦ rw kept (λ h. h)
  ];
}

pub Retires-if :
    (p : Connection → Bool) (f : Connection → Connection)
    → Retires f
    → Retires (λ c. if p c then f c else c)
Retires-if p f r = record {
  keys = λ sub i n c. elim (Bool-cases (p c)) [
    | inl changed ↦ rw changed (r.keys sub i n c)
    | inr kept ↦ rw kept (λ h. h)
  ];
  activity = λ sub i ext c. elim (Bool-cases (p c)) [
    | inl changed ↦ rw changed (r.activity sub i ext c)
    | inr kept ↦ rw kept (λ h. h)
  ];
}

pub map-IsWellFormed :
    (g : Connection → Connection) (xs : List Connection)
    → Retires g
    → IsWellFormed xs
    → IsWellFormed (map g xs)
map-IsWellFormed g xs r h = record {
  one_active = λ sub i ext.
      let le = count_if-map-le (is_active_for sub i ext) g xs (r.activity sub i ext) in
      omega (arith, le, h.one_active sub i ext);
  one_per_seq = λ sub i n.
      let le = count_if-map-le (has_seq sub i n) g xs (r.keys sub i n) in
      omega (arith, le, h.one_per_seq sub i n);
}

-- The first number above all that the rows have.
abbrev above : List Connection → ℕ
above cs = elim (max_seq cs) [ none ↦ 0 | some m ↦ m + 1 ]

above-cons :
    (c : Connection) (cs : List Connection) → above (c ∷ cs) ≡ max (c.connection_seq + 1) (above cs)
above-cons c cs = ground arith

-- No row that passes the test has the number that the next one gets.
above-fresh :
    (p : Connection → Bool) (n : ℕ) (xs : List Connection)
    → above (filter p xs) ≤ n
    → count_if (λ c. p c && eqb c.connection_seq n) xs ≡ 0
above-fresh p n [] h = refl
above-fresh p n (x ∷ xs) h = elim (Bool-cases (p x)) [
  | inl mine ↦
      let e : filter p (x ∷ xs) ≡ x ∷ filter p xs = rw mine in
      let le : above (x ∷ filter p xs) ≤ n = subst (λ l. above l ≤ n) e h in
      let bound : max (x.connection_seq + 1) (above (filter p xs)) ≤ n =
        subst (λ m. m ≤ n) (above-cons x (filter p xs)) le in
      let ih = above-fresh p n xs (omega arith) in
      let other : eqb x.connection_seq n ≡ false = ground arith in rw (mine, other, ih) refl
  | inr skipped ↦
      let e : filter p (x ∷ xs) ≡ filter p xs = rw skipped in
      rw (skipped, above-fresh p n xs (subst (λ l. above l ≤ n) e h)) refl
]

-- The counts depend on the keys alone.
none_active_at :
    (xs : List Connection) (sub sub' i i' ext ext' : String)
    → sub ≡ sub'
    → i ≡ i'
    → ext ≡ ext'
    → count_if (is_active_for sub i ext) xs ≡ 0
    → count_if (is_active_for sub' i' ext') xs ≡ 0
none_active_at xs sub sub' i i' ext ext' p q r h =
    subst (λ s. count_if (is_active_for s i' ext') xs ≡ 0) p
      (subst (λ j. count_if (is_active_for sub j ext') xs ≡ 0) q
        (subst (λ e. count_if (is_active_for sub i e) xs ≡ 0) r h))

none_has_seq_at :
    (xs : List Connection) (sub sub' i i' : String) (n n' : ℕ)
    → sub ≡ sub'
    → i ≡ i'
    → n ≡ n'
    → count_if (has_seq sub i n) xs ≡ 0
    → count_if (has_seq sub' i' n') xs ≡ 0
none_has_seq_at xs sub sub' i i' n n' p q r h =
    subst (λ s. count_if (has_seq s i' n') xs ≡ 0) p
      (subst (λ j. count_if (has_seq sub j n') xs ≡ 0) q
        (subst (λ m. count_if (has_seq sub i m) xs ≡ 0) r h))

module _ (arcade : Arcade) (w : World arcade) where
  open arcade use {rows}

  -- `_next_seq` gives a number that no row of the user and the instance has.
  pub next_seq-fresh :
      (sub instance_id : String)
      → count_if (has_seq sub instance_id (next_seq arcade sub instance_id w)) (rows w.connections)
        ≡ 0
  unfolding next_seq
  next_seq-fresh sub i =
      above-fresh (is_of sub i) (above (filter (is_of sub i) (rows w.connections)))
        (rows w.connections) (omega arith)

  -- A new active row whose mailbox has none, with the next number, keeps the invariant.
  pub insert-IsWellFormed :
      (doc : Connection)
      → doc.connection_seq ≡ next_seq arcade doc.user_sub doc.integration_instance_id w
      → select arcade
          (is_active_for doc.user_sub doc.integration_instance_id doc.external_subject)
          w.connections
        ≡ []
      → IsWellFormed (rows w.connections)
      → IsWellFormed (rows (arcade.insert doc w.connections))
  insert-IsWellFormed doc seq fresh h = record {
    one_active = λ sub i ext.
        rw (count_if-insert arcade) (elim (Bool-cases (is_active_for sub i ext doc)) [
          | inl same ↦
              let free =
                sym (
                  length-filter
                    (is_active_for doc.user_sub doc.integration_instance_id doc.external_subject)
                    (rows w.connections))
                ∙ ap length fresh in
              let zero_there =
                none_active_at (rows w.connections) doc.user_sub sub doc.integration_instance_id i
                  doc.external_subject ext ((eq_iff doc.user_sub sub).0 (ground arith))
                  ((eq_iff doc.integration_instance_id i).0 (ground arith))
                  ((eq_iff doc.external_subject ext).0 (ground arith)) free in
              rw (same, zero_there) (omega arith)
          | inr other ↦ rw other (omega (arith, h.one_active sub i ext))
        ]);
    one_per_seq = λ sub i n. rw (count_if-insert arcade) (elim (Bool-cases (has_seq sub i n doc)) [
      | inl same ↦
          let number : doc.connection_seq ≡ n = ground arith in
          let zero_there =
            none_has_seq_at (rows w.connections) doc.user_sub sub doc.integration_instance_id i _ n
              ((eq_iff doc.user_sub sub).0 (ground arith))
              ((eq_iff doc.integration_instance_id i).0 (ground arith)) (sym seq ∙ number)
              (next_seq-fresh doc.user_sub doc.integration_instance_id) in
          rw (same, zero_there) (omega arith)
      | inr other ↦ rw other (omega (arith, h.one_per_seq sub i n))
    ]);
  }
