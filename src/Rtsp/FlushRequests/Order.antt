-- ===== src/Rtsp/FlushRequests/Order.antt =====
-- The list of flush requests stays in order.
use shairport_sync_for_openw.Prelude.{
  ◌≡◌, inl, inr, refl, ap, ◌∙◌, true, false, List, [], ◌∷◌, ◌++◌, arith, Bool-cases, All,
}
use shairport_sync_for_openw.Rtsp.FlushRequests.{FlushRequest, goes_before, add_flush_request}

-- The `from` part of an immediate request is not set.
abbrev pub IsUnset : FlushRequest → Type 0
IsUnset r = r.flush_now ≡ true → (r.flush_from_seq ≡ 0) × (r.flush_from_ts ≡ 0)

-- No request would go before the one it follows.
abbrev pub Follows : FlushRequest → List FlushRequest → Type 0
Follows a [] = Unit
Follows a (b ∷ bs) = goes_before b a ≡ false

abbrev pub IsSorted : List FlushRequest → Type 0
IsSorted [] = Unit
IsSorted (a ∷ rest) = Follows a rest × IsSorted rest

goes_before_asym :
    (n u : FlushRequest) → IsUnset n → IsUnset u → goes_before n u ≡ true → goes_before u n ≡ false
unfolding goes_before
goes_before_asym n u hn hu h = elim (Bool-cases n.flush_now) [
  | inl a ↦ let (p, q) = hn a in ground arith
  | inr a ↦ elim (Bool-cases u.flush_now) [
    | inl b ↦ let (p, q) = hu b in ground arith
    | inr b ↦ ground arith
  ]
]

add-front :
    (n u : FlushRequest) (us : List FlushRequest)
    → goes_before n u ≡ true
    → add_flush_request n (u ∷ us) ≡ n ∷ u ∷ us
unfolding add_flush_request
add-front n u us h = rw h refl

add-behind :
    (n u : FlushRequest) (us : List FlushRequest)
    → goes_before n u ≡ false
    → add_flush_request n (u ∷ us) ≡ u ∷ add_flush_request n us
unfolding add_flush_request
add-behind n u us h = rw h refl

add-Follows :
    (a n : FlushRequest) (us : List FlushRequest)
    → goes_before n a ≡ false
    → Follows a us
    → Follows a (add_flush_request n us)
add-Follows a n [] h f = unfold add_flush_request in h
add-Follows a n (u ∷ us) h f = elim (Bool-cases (goes_before n u)) [
  | inl t ↦ rw (add-front n u us t) h
  | inr t ↦ rw (add-behind n u us t) f
]

-- A list in order stays in order when a request is added, where the unset parts of immediate
-- requests are 0.
pub add_flush_request-IsSorted :
    (n : FlushRequest) (us : List FlushRequest)
    → IsUnset n
    → All IsUnset us
    → IsSorted us
    → IsSorted (add_flush_request n us)
add_flush_request-IsSorted n [] hn hs s = unfold add_flush_request in (tt, tt)
add_flush_request-IsSorted n (u ∷ us) hn (hu, hs) (f, s) = elim (Bool-cases (goes_before n u)) [
  | inl t ↦ rw (add-front n u us t) (goes_before_asym n u hn hu t, (f, s))
  | inr t ↦
      rw (add-behind n u us t) (add-Follows u n us t f, add_flush_request-IsSorted n us hn hs s)
]

-- The request is added once, and the others keep their places.
pub add_flush_request-inserts :
    (n : FlushRequest) (us : List FlushRequest)
    → (xs : List FlushRequest) × (ys : List FlushRequest) × (us ≡ xs ++ ys)
      × (add_flush_request n us ≡ xs ++ n ∷ ys)
add_flush_request-inserts n [] = ([], [], refl, unfold add_flush_request in refl)
add_flush_request-inserts n (u ∷ us) = elim (Bool-cases (goes_before n u)) [
  | inl t ↦ ([], u ∷ us, refl, add-front n u us t)
  | inr t ↦
      let (xs, ys, e, f) = add_flush_request-inserts n us in
      (u ∷ xs, ys, ap (λ z. u ∷ z) e, add-behind n u us t ∙ ap (λ z. u ∷ z) f)
]
