-- ===== src/Realtime/Registry.antt =====
-- The map of connections after a connect and a disconnect (backend/src/realtime/hub.py).
use watari.Base.{
  Bool-cases, List, String, [], ap, arith, contains, false, if◌then◌else◌, inl, inr, is_empty, refl,
  str_eq, str_eq_iff, subst, sym, true, ℕ, ◌&&◌, ◌++◌, ◌==◌, ◌||◌, ◌∙◌, ◌∷◌, ◌≡◌,
}
use watari.Realtime.Hub.{
  Connections, add_to_set, connect, discard_from_set, disconnect, put_unless_empty, sockets,
}

abbrev pub IsFresh : String → Connections → Type 0
IsFresh id [] = Unit {0}
IsFresh id ((k, ws) ∷ rest) = (str_eq k id ≡ false) × IsFresh id rest

-- Every id has one entry, and its set is not empty.
abbrev pub IsTidy : Connections → Type 0
IsTidy [] = Unit {0}
IsTidy ((k, ws) ∷ rest) = IsFresh k rest × (is_empty ws ≡ false) × IsTidy rest

contains-append : (v w : ℕ) (ws : List ℕ) → contains v (ws ++ w ∷ []) ≡ (contains v ws || w == v)
contains-append v w [] = ground arith
contains-append v w (x ∷ ws) = ground (arith, contains-append v w ws)

contains-add :
    (v w : ℕ) (ws : List ℕ)
    → contains v (add_to_set w ws) ≡ (if w == v then true else contains v ws)
contains-add v w ws = elim (Bool-cases (contains w ws)) [
  | inl e ↦ elim (Bool-cases (w == v)) [
    | inl same ↦
        let it : w ≡ v = ground arith in rw e (rw same (subst (λ x. contains x ws ≡ true) it e))
    | inr other ↦ rw e (rw other refl)
  ]
  | inr e ↦ ground (arith, contains-append v w ws)
]

contains-discard :
    (v w : ℕ) (ws : List ℕ)
    → contains v (discard_from_set w ws) ≡ (if w == v then false else contains v ws)
contains-discard v w [] = ground arith
contains-discard v w (x ∷ ws) = ground (arith, contains-discard v w ws)

not_empty-add : (w : ℕ) (ws : List ℕ) → is_empty ws ≡ false → is_empty (add_to_set w ws) ≡ false
not_empty-add w [] h = ground arith
not_empty-add w (x ∷ ws) h = elim (Bool-cases (contains w (x ∷ ws))) [
  | inl e ↦ rw e refl
  | inr e ↦ rw e refl
]

-- Of two ids an entry has one.
apart : (k id j : String) → str_eq k id ≡ false → str_eq k j ≡ true → str_eq id j ≡ false
apart k id j other same = elim (Bool-cases (str_eq id j)) [
  | inr h ↦ h
  | inl h ↦
      let it : k ≡ id = (str_eq_iff k j).0 same ∙ sym ((str_eq_iff id j).0 h) in
      let so : str_eq k id ≡ true = (str_eq_iff k id).1 it in absurd (ground arith)
]

agrees : (id j k : String) → str_eq k id ≡ true → str_eq id j ≡ str_eq k j
agrees id j k same = ap (λ x. str_eq x j) (sym ((str_eq_iff k id).0 same))

sockets-fresh : (j : String) (c : Connections) → IsFresh j c → sockets j c ≡ []
sockets-fresh j [] h = refl
sockets-fresh j ((k, ws) ∷ rest) (p, h) = rw p (sockets-fresh j rest h)

put_lem :
    (k j : String) (v : ℕ) (us : List ℕ) (rest : Connections)
    → IsFresh k rest
    → contains v (sockets j (put_unless_empty k us rest))
      ≡ (if str_eq k j then contains v us else contains v (sockets j rest))
put_lem k j v (u ∷ us) rest f = ground arith
put_lem k j v [] rest f = elim (Bool-cases (str_eq k j)) [
  | inr h ↦ rw h refl
  | inl h ↦
      let fresh : IsFresh j rest = subst (λ x. IsFresh x rest) ((str_eq_iff k j).0 h) f in
      rw h (ap (contains v) (sockets-fresh j rest fresh))
]

module _ (id : String) (w : ℕ) where
  pub connect_lem :
      (j : String) (v : ℕ) (c : Connections)
      → contains v (sockets j (connect id w c))
        ≡ (if str_eq id j && w == v then true else contains v (sockets j c))
  unfolding connect
  connect_lem j v [] = ground arith
  connect_lem j v ((k, ws) ∷ rest) = elim (Bool-cases (str_eq k id)) [
    | inl e ↦ ground (arith, agrees id j k e, contains-add v w ws)
    | inr e ↦ elim (Bool-cases (str_eq k j)) [
      | inr h ↦ ground (arith, connect_lem j v rest)
      | inl h ↦ let other : str_eq id j ≡ false = apart k id j e h in ground arith
    ]
  ]

  connect-IsFresh :
      (j : String) (c : Connections)
      → str_eq id j ≡ false
      → IsFresh j c
      → IsFresh j (connect id w c)
  unfolding connect
  connect-IsFresh j [] h f = (h, tt)
  connect-IsFresh j ((k, ws) ∷ rest) h (p, f) = elim (Bool-cases (str_eq k id)) [
    | inl e ↦ rw e (p, f)
    | inr e ↦ rw e (p, connect-IsFresh j rest h f)
  ]

  pub connect-IsTidy : (c : Connections) → IsTidy c → IsTidy (connect id w c)
  unfolding connect
  connect-IsTidy [] h = (tt, refl, tt)
  connect-IsTidy ((k, ws) ∷ rest) (f, full, h) = elim (Bool-cases (str_eq k id)) [
    | inl e ↦ rw e (f, not_empty-add w ws full, h)
    | inr e ↦ rw e (
      connect-IsFresh k rest (apart k id k e ((str_eq_iff k k).1 refl)) f,
      full,
      connect-IsTidy rest h,
    )
  ]

  pub disconnect_lem :
      (j : String) (v : ℕ) (c : Connections)
      → IsTidy c
      → contains v (sockets j (disconnect id w c))
        ≡ (if str_eq id j && w == v then false else contains v (sockets j c))
  unfolding disconnect
  disconnect_lem j v [] h = ground arith
  disconnect_lem j v ((k, ws) ∷ rest) (f, full, h) = elim (Bool-cases (str_eq k id)) [
    | inl e ↦ ground (
      arith,
      put_lem k j v (discard_from_set w ws) rest f,
      contains-discard v w ws,
      agrees id j k e,
    )
    | inr e ↦ elim (Bool-cases (str_eq k j)) [
      | inr q ↦ ground (arith, disconnect_lem j v rest h)
      | inl q ↦ let other : str_eq id j ≡ false = apart k id j e q in ground arith
    ]
  ]

  disconnect-IsFresh : (j : String) (c : Connections) → IsFresh j c → IsFresh j (disconnect id w c)
  unfolding disconnect
  disconnect-IsFresh j [] f = tt
  disconnect-IsFresh j ((k, ws) ∷ rest) (p, f) = elim (Bool-cases (str_eq k id)) [
    | inl e ↦ rw e (put_fresh (discard_from_set w ws))
    | inr e ↦ rw e (p, disconnect-IsFresh j rest f)
  ]
    where
      put_fresh : (us : List ℕ) → IsFresh j (put_unless_empty k us rest)
      put_fresh [] = f
      put_fresh (u ∷ us) = (p, f)

  pub disconnect-IsTidy : (c : Connections) → IsTidy c → IsTidy (disconnect id w c)
  unfolding disconnect
  disconnect-IsTidy [] h = tt
  disconnect-IsTidy ((k, ws) ∷ rest) (f, full, h) = elim (Bool-cases (str_eq k id)) [
    | inl e ↦ rw e (put_tidy (discard_from_set w ws))
    | inr e ↦ rw e (disconnect-IsFresh k rest f, full, disconnect-IsTidy rest h)
  ]
    where
      put_tidy : (us : List ℕ) → IsTidy (put_unless_empty k us rest)
      put_tidy [] = h
      put_tidy (u ∷ us) = (f, refl, h)
