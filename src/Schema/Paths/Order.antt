-- ===== src/Schema/Paths/Order.antt =====
-- The order of rendered paths: `naturalLess` compares the segments as a strict total order.
use adk_a2ui_go.Common.{
  ◌≡◌, refl, true, false, none, some, List, [], ◌∷◌, arith, String, eq_refl, eq_iff, ◌⊎◌, inl, inr,
  ◌∙◌,
}
use adk_a2ui_go.Common.Text.{IsStrictOrder, str_lt-IsStrictOrder}
use adk_a2ui_go.Common.Sort.{IsWeakOrder, key-IsWeakOrder}
use adk_a2ui_go.Schema.Paths.{
  pos, negsuc, int_lt, int_eq, PathToken, index, name, decide_token, tokens_less, path_tokens,
  natural_less,
}

-- One round: `none` exactly for equal segments, else the answer of a strict order.
decide_refl : (x : PathToken) → decide_token x x ≡ none
unfolding decide_token int_eq
decide_refl (index (pos n)) = ground arith
decide_refl (index (negsuc n)) = ground arith
decide_refl (name s) = ground (arith, eq_refl s)

decide_none : (x y : PathToken) → decide_token x y ≡ none → x ≡ y
unfolding decide_token int_eq
decide_none (index (pos m)) (index (pos n)) h = ground arith
decide_none (index (pos m)) (index (negsuc n)) h = ground arith
decide_none (index (negsuc m)) (index (pos n)) h = ground arith
decide_none (index (negsuc m)) (index (negsuc n)) h = ground arith
decide_none (index m) (name t) h = cc
decide_none (name s) (index n) h = cc
decide_none (name s) (name t) h = ground (arith, eq_iff s t)

decide_trans :
    (x y z : PathToken)
    → decide_token x y ≡ some true
    → decide_token y z ≡ some true
    → decide_token x z ≡ some true
unfolding decide_token int_eq int_lt
decide_trans (index (pos a)) (index (pos b)) (index (pos c)) h k = ground arith
decide_trans (index (pos a)) (index (pos b)) (index (negsuc c)) h k = ground arith
decide_trans (index (pos a)) (index (negsuc b)) z h k = ground arith
decide_trans (index (negsuc a)) (index (pos b)) (index (pos c)) h k = ground arith
decide_trans (index (negsuc a)) (index (pos b)) (index (negsuc c)) h k = ground arith
decide_trans (index (negsuc a)) (index (negsuc b)) (index (pos c)) h k = ground arith
decide_trans (index (negsuc a)) (index (negsuc b)) (index (negsuc c)) h k = ground arith
decide_trans (index a) y (name u) h k = refl
decide_trans (index a) (name t) (index c) h k = cc
decide_trans (name s) (index b) z h k = cc
decide_trans (name s) (name t) (index c) h k = cc
decide_trans (name s) (name t) (name u) h k = ground (
  arith,
  eq_iff s t,
  eq_iff t u,
  eq_iff s u,
  str_lt-IsStrictOrder.transitive s t u,
  str_lt-IsStrictOrder.irrefl s,
)

decide_false : (x y : PathToken) → decide_token x y ≡ some false → decide_token y x ≡ some true
unfolding decide_token int_eq int_lt
decide_false (index (pos m)) (index (pos n)) h = ground arith
decide_false (index (pos m)) (index (negsuc n)) h = ground arith
decide_false (index (negsuc m)) (index (pos n)) h = ground arith
decide_false (index (negsuc m)) (index (negsuc n)) h = ground arith
decide_false (index m) (name t) h = cc
decide_false (name s) (index n) h = refl
decide_false (name s) (name t) h =
    ground (arith, eq_iff s t, eq_iff t s, str_lt-IsStrictOrder.connected s t)

tokens_less_irrefl : (xs : List PathToken) → tokens_less xs xs ≡ false
unfolding tokens_less
tokens_less_irrefl [] = refl
tokens_less_irrefl (x ∷ xs) = rw (decide_refl x, tokens_less) (tokens_less_irrefl xs)

-- What one round says of the whole comparison.
cons_true :
    (x y : PathToken) (xs ys : List PathToken)
    → tokens_less (x ∷ xs) (y ∷ ys) ≡ true
    → (decide_token x y ≡ some true) ⊎ ((x ≡ y) × (tokens_less xs ys ≡ true))
unfolding tokens_less
cons_true x y xs ys h = ground (arith, decide_none x y)

true_cons :
    (x y : PathToken) (xs ys : List PathToken)
    → (decide_token x y ≡ some true) ⊎ ((x ≡ y) × (tokens_less xs ys ≡ true))
    → tokens_less (x ∷ xs) (y ∷ ys) ≡ true
unfolding tokens_less
true_cons x y xs ys (inl h) = rw (h, tokens_less)
true_cons x y xs ys (inr (e, h)) = rw (e, decide_refl y, tokens_less) h

tokens_less_trans :
    (xs ys zs : List PathToken)
    → tokens_less xs ys ≡ true
    → tokens_less ys zs ≡ true
    → tokens_less xs zs ≡ true
unfolding tokens_less
tokens_less_trans [] [] zs h k = cc
tokens_less_trans [] (y ∷ ys) [] h k = cc
tokens_less_trans [] (y ∷ ys) (z ∷ zs) h k = refl
tokens_less_trans (x ∷ xs) [] zs h k = cc
tokens_less_trans (x ∷ xs) (y ∷ ys) [] h k = cc
tokens_less_trans (x ∷ xs) (y ∷ ys) (z ∷ zs) h k =
    true_cons x z xs zs (elim (cons_true x y xs ys h) [
      | inl p ↦ elim (cons_true y z ys zs k) [
        | inl q ↦ inl (decide_trans x y z p q)
        | inr q ↦ inl (cc (p, q.0))
      ]
      | inr p ↦ elim (cons_true y z ys zs k) [
        | inl q ↦ inl (cc (q, p.0))
        | inr q ↦ inr (p.0 ∙ q.0, tokens_less_trans xs ys zs p.1 q.1)
      ]
    ])

tokens_less-connected :
    (xs ys : List PathToken) → tokens_less xs ys ≡ false → tokens_less ys xs ≡ false → xs ≡ ys
unfolding tokens_less
tokens_less-connected [] [] h k = refl
tokens_less-connected [] (y ∷ ys) h k = cc
tokens_less-connected (x ∷ xs) [] h k = cc
tokens_less-connected (x ∷ xs) (y ∷ ys) h k = ground (
  arith,
  decide_none x y,
  decide_none y x,
  decide_false x y,
  decide_false y x,
  tokens_less-connected xs ys,
  decide_refl x,
)

pub tokens_less-IsStrictOrder : IsStrictOrder tokens_less
tokens_less-IsStrictOrder = record {
  irrefl = tokens_less_irrefl;
  transitive = tokens_less_trans;
  connected = tokens_less-connected;
}

-- Two paths that neither precedes have the same segments; the order is fit for a stable sort of
-- anything that has a path.
pub path-IsWeakOrder :
    {A : Type 0} (path : A → String) → IsWeakOrder (λ a b. natural_less (path a) (path b))
unfolding natural_less
path-IsWeakOrder path =
    key-IsWeakOrder (λ a. path_tokens (path a)) tokens_less tokens_less-IsStrictOrder

-- Of two paths one precedes the other, or they have the same segments; and never both.
pub natural_less_trichotomy :
    (a b : String)
    → ((natural_less a b ≡ true) × (natural_less b a ≡ false))
      ⊎ ((natural_less b a ≡ true) × (natural_less a b ≡ false))
      ⊎ ((path_tokens a ≡ path_tokens b) × (natural_less a b ≡ false) × (natural_less b a ≡ false))
unfolding natural_less
natural_less_trichotomy a b = ground (
  arith,
  (path-IsWeakOrder (λ s. s)).asym a b,
  tokens_less-connected (path_tokens a) (path_tokens b),
)

-- The order of paths is transitive.
pub natural_less_trans :
    (a b c : String) → natural_less a b ≡ true → natural_less b c ≡ true → natural_less a c ≡ true
unfolding natural_less
natural_less_trans a b c = tokens_less_trans (path_tokens a) (path_tokens b) (path_tokens c)
