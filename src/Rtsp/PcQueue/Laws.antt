-- ===== src/Rtsp/PcQueue/Laws.antt =====
-- The queue keeps its invariant, and is a bounded first-in first-out list of its contents.
use shairport_sync_for_openw.Prelude.{
  ℕ, suc, ◌+◌, ◌^◌, ◌≤◌, ◌<◌, ◌≡◌, refl, ap, ◌∙◌, Bool, some, List, [], ◌∷◌, ◌++◌, inl, inr, arith,
  ◌==◌, Bool-cases, u32,
}
use shairport_sync_for_openw.Window.{wrap, window, length-window, window-suc, window-update}
use shairport_sync_for_openw.Rtsp.PcQueue.Fifo
use shairport_sync_for_openw.Rtsp.PcQueue.Fifo.{Call, add, get, Seen, response, item, waits}
use mathlib.Core.Option
use shairport_sync_for_openw.Rtsp.PcQueue.{
  PcQueue, init, fold, append_item, remove_item, add_item, wait, got, get_item,
}

pub record IsValid {ℓ} {A : Type ℓ} (q : PcQueue A) : Type 0 where
  pub small : q.capacity < 2 ^ 32
  pub counted : q.count ≤ q.capacity
  pub toq_in : q.toq < q.capacity
  pub eoq_at : q.eoq ≡ wrap q.capacity (q.toq + q.count)

module _ {ℓ} {A : Type ℓ} where
  abbrev pub contents : PcQueue A → List A
  contents q = window q.capacity q.items q.toq q.count

  -- A fresh queue over storage of a positive number of slots is valid and empty.
  init-IsValid : (items : ℕ → A) (n : ℕ) → 0 < n → n < 2 ^ 32 → IsValid (init items n)
  unfolding init
  init-IsValid items n h k = ground arith

module _ {A : Type 0} where
  append_item-IsValid :
      (q : PcQueue A) (x : A) → IsValid q → q.count < q.capacity → IsValid (append_item q x)
  unfolding append_item
  append_item-IsValid q x v h = ground arith

  contents-append_item :
      (q : PcQueue A) (x : A)
      → IsValid q
      → q.count < q.capacity
      → contents (append_item q x) ≡ contents q ++ x ∷ []
  unfolding append_item
  contents-append_item q x v h =
      let e : u32 (q.count + 1) ≡ suc q.count = omega (arith, v.small) in
      rw e (window-update q.capacity q.items x q.count q.toq q.eoq v.toq_in h v.eoq_at)

  remove_item-IsValid : (q : PcQueue A) → IsValid q → 0 < q.count → IsValid (remove_item q)
  unfolding remove_item
  remove_item-IsValid q v h = ground arith

  contents-remove_item :
      (q : PcQueue A)
      → IsValid q
      → 0 < q.count
      → contents q ≡ q.items q.toq ∷ contents (remove_item q)
  unfolding remove_item
  contents-remove_item q v h =
      let f : fold q.capacity q.toq ≡ wrap q.capacity (q.toq + 1) = ground arith in
      rw f (window-suc q.capacity q.items q.toq q.count h)

  contents-zero : (q : PcQueue A) → q.count ≡ 0 → contents q ≡ []
  unfolding window
  contents-zero q e = rw e

  capacity-add_item :
      (q : PcQueue A) (x : A) (block busy : Bool)
      → (Option.get_or (add_item (some q) x block busy).1 q).capacity ≡ q.capacity
  unfolding add_item append_item
  capacity-add_item q x block busy = ground arith

  -- `pc_queue_add_item` keeps the invariant, whatever it answers.
  pub add_item-IsValid :
      (q : PcQueue A) (x : A) (block busy : Bool)
      → IsValid q
      → IsValid (Option.get_or (add_item (some q) x block busy).1 q)
  unfolding add_item
  add_item-IsValid q x block busy v = ground (arith, append_item-IsValid q x v)

  add_item_refines :
      (q : PcQueue A) (x : A) (block busy : Bool)
      → IsValid q
      → let (r, o) = add_item (some q) x block busy in
        (r, contents (Option.get_or o q)) ≡ Fifo.push q.capacity (contents q) x block busy
  unfolding add_item Fifo.push
  add_item_refines q x block busy v =
      ground (arith, contents-append_item q x v, length-window q.capacity q.items q.toq q.count)

  get_item-wait : (q : PcQueue A) → q.count ≡ 0 → get_item (some q) ≡ wait
  unfolding get_item
  get_item-wait q h = rw h

  get_item-got :
      (q : PcQueue A) → 0 < q.count → get_item (some q) ≡ got (q.items q.toq) (remove_item q)
  unfolding get_item
  get_item-got q h = ground arith

  -- The replies to a sequence of calls on one queue.
  pub run : PcQueue A → List (Call A) → List (Seen A)
  run q [] = []
  run q (add x block busy ∷ cs) =
      let (r, o) = add_item (some q) x block busy in response r ∷ run (Option.get_or o q) cs
  run q (get ∷ cs) = elim (get_item (some q)) [
    | got x q' ↦ item x ∷ run q' cs
    | _ ↦ waits ∷ run q cs
  ]

  -- No sequence of additions and removals tells a valid queue from the list of its contents.
  pub run_refines :
      (cs : List (Call A)) (q : PcQueue A)
      → IsValid q
      → run q cs ≡ Fifo.run q.capacity (contents q) cs
  unfolding run Fifo.run remove_item
  run_refines [] q v = refl
  run_refines (add x block busy ∷ cs) q v =
      let q' : PcQueue A = Option.get_or (add_item (some q) x block busy).1 q in
      ap (λ l. response (add_item (some q) x block busy).0 ∷ l)
        (run_refines cs q' (add_item-IsValid q x block busy v)
          ∙ ap (λ c. Fifo.run c (contents q') cs) (capacity-add_item q x block busy))
      ∙ ap (λ p. response p.0 ∷ Fifo.run q.capacity p.1 cs) (add_item_refines q x block busy v)
  run_refines (get ∷ cs) q v = elim (Bool-cases (q.count == 0)) [
    | inl e ↦
        let z : q.count ≡ 0 = ground arith in
        rw (get_item-wait q z, run, contents-zero q z) (rw (run_refines cs q v, contents-zero q z))
    | inr e ↦
        let p : 0 < q.count = ground arith in
        rw (get_item-got q p, run, contents-remove_item q v p)
          (rw (run_refines cs (remove_item q) (remove_item-IsValid q v p)))
  ]
