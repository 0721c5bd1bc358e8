-- ===== src/Dacp/SetVolume.antt =====
-- The volume that is heard after the commands of `dacp_set_volume`.
use native.Mathlib.Nat.{div-add-mod, mod-lt}
use shairport_sync_for_openw.Prelude.{
  ℕ, ◌+◌, ◌*◌, ◌/◌, ◌≤◌, ◌<◌, ◌≡◌, ◌≢◌, ap, ◌∙◌, arith, Bool, true, false, List, [], ◌∷◌, ◌==◌,
  ◌&&◌, not, if◌then◌else◌, All, Bool-cases, inl, inr,
}
use shairport_sync_for_openw.Prelude.Int.{ℤ, pos, negsuc, ◌+ℤ◌, ◌*ℤ◌, leb_ℤ, ltb_ℤ, div_ℤ}
use shairport_sync_for_openw.Dacp.{
  Speaker, same, quotient, Command, include_speaker, speaker_volume, active_speakers, highest_other,
  below_others, dacp_set_volume,
}

-- The overall volume, and ours relative to it, in percent.
pub record Heard : Type 0 where
  pub overall : ℤ
  pub relative : ℤ

-- What a command does, as its comment says: to include a speaker sets the overall volume, with the
-- speaker at 100 percent of it.
abbrev pub obeyed : Heard → List Command → Heard
obeyed h [] = h
obeyed h (include_speaker m v ∷ cs) = obeyed (record { overall = v; relative = pos 100 }) cs
obeyed h (speaker_volume m v ∷ cs) = obeyed (record h { relative = v }) cs

abbrev pub heard_volume : Heard → ℤ
heard_volume h = div_ℤ (h.overall *ℤ h.relative +ℤ pos 50) 100

at_full : (v : ℕ) → (100 * ((v * 100 + 100 / 2) / 100) + 50) / 100 ≡ v
at_full v = omega arith

-- The relative volume is rounded so that the product rounds back.
rounds_back : (v h : ℕ) → 0 < h → h ≤ 100 → (h * ((v * 100 + h / 2) / h) + 50) / 100 ≡ v
rounds_back v h p q = elim (Bool-cases (h == 100)) [
  | inl full ↦ let e : h ≡ 100 = ground arith in rw e (at_full v)
  | inr less ↦
      let below : h < 100 = ground arith in
      omega (arith, div-add-mod (v * 100 + h / 2) h, mod-lt (v * 100 + h / 2) {m = h} p)
]

abbrev pub IsPercent : ℤ → Type 0
IsPercent (pos v) = v ≤ 100
IsPercent (negsuc v) = ⊥

IsPercent-if : (b : Bool) (x y : ℤ) → IsPercent x → IsPercent y → IsPercent (if b then x else y)
IsPercent-if true x y hx hy = hx
IsPercent-if false x y hx hy = hy

highest-IsPercent :
    (m : ℤ) (ss : List Speaker) (v : ℤ)
    → IsPercent v
    → All (λ s. IsPercent s.volume) ss
    → IsPercent (highest_other m v ss)
unfolding highest_other
highest-IsPercent m [] v h a = h
highest-IsPercent m (s ∷ rest) v h a =
    highest-IsPercent m rest
      (if not (same s.speaker_number m) && (s.active && ltb_ℤ v s.volume) then s.volume else v)
      (IsPercent-if (not (same s.speaker_number m) && (s.active && ltb_ℤ v s.volume)) s.volume v a.0
        h)
      a.1

pos_add : (a b : ℕ) → pos a +ℤ pos b ≡ pos (a + b)
pos_add a b = ground arith

pos_mul : (a b : ℕ) → pos a *ℤ pos b ≡ pos (a * b)
pos_mul a b = ground arith

heard_pos :
    (a b : ℕ)
    → heard_volume (record { overall = pos a; relative = pos b }) ≡ pos ((a * b + 50) / 100)
heard_pos a b =
    ap (λ z. div_ℤ (z +ℤ pos 50) 100) (pos_mul a b) ∙ ap (λ z. div_ℤ z 100) (pos_add (a * b) 50)

heard_full : (v : ℕ) → heard_volume (record { overall = pos v; relative = pos 100 }) ≡ pos v
heard_full v = heard_pos v 100 ∙ ap pos (omega arith)

relative_pos :
    (vo h : ℕ)
    → quotient (pos vo *ℤ pos 100 +ℤ quotient (pos h) (pos 2)) (pos h)
      ≡ pos ((vo * 100 + h / 2) / h)
relative_pos vo h =
    ap (λ z. quotient (z +ℤ pos (h / 2)) (pos h)) (pos_mul vo 100)
    ∙ ap (λ z. quotient z (pos h)) (pos_add (vo * 100) (h / 2))

heard_rounded :
    (vo h : ℕ)
    → 0 < h
    → h ≤ 100
    → heard_volume (record {
      overall = pos h;
      relative = quotient (pos vo *ℤ pos 100 +ℤ quotient (pos h) (pos 2)) (pos h);
    })
      ≡ pos vo
heard_rounded vo h p q =
    ap (λ z. heard_volume (record { overall = pos h; relative = z })) (relative_pos vo h)
    ∙ (heard_pos h ((vo * 100 + h / 2) / h) ∙ ap pos (rounds_back vo h p q))

below_heard :
    (m : ℤ) (vo o : ℕ) (r : ℤ) (h : ℕ)
    → h ≤ 100
    → vo < h
    → h ≤ o
    → heard_volume (
        obeyed (record { overall = pos o; relative = r }) (below_others m (pos vo) (pos o) (pos h)))
      ≡ pos vo
unfolding below_others
below_heard m vo o r h p below le =
    let some_volume : same (pos h) (pos 0) ≡ false = ground arith in
    elim (Bool-cases (ltb_ℤ (pos h) (pos o))) [
      | inl lower ↦ rw (lower, some_volume) (heard_rounded vo h (omega arith) p)
      | inr level ↦
          let e : o ≡ h = ground arith in
          rw (level, some_volume) (rw e (heard_rounded vo h (omega arith) p))
    ]

product-le : (v o : ℕ) → v ≤ 100 → v * o ≤ 100 * o
product-le v o p = grind arith

-- The loudest other volume, scaled by the overall volume, is no more than that.
scaled_le :
    (z : ℤ) (o : ℕ) → IsPercent z → (h : ℕ) × (div_ℤ (z *ℤ pos o +ℤ pos 50) 100 ≡ pos h) × (h ≤ o)
scaled_le (pos v) o p = (
  (v * o + 50) / 100,
  ap (λ z. div_ℤ (z +ℤ pos 50) 100) (pos_mul v o) ∙ ap (λ z. div_ℤ z 100) (pos_add (v * o) 50),
  omega (arith, product-le v o p),
)
scaled_le (negsuc v) o p = absurd p

-- With at least one active speaker, an overall volume and speakers' volumes from 0 to 100, and a
-- volume in that range asked for, the commands of `dacp_set_volume` leave us with exactly that
-- volume, whatever our relative volume was.
pub dacp_set_volume_heard :
    (m : ℤ) (vo o : ℕ) (r : ℤ) (ss : List Speaker)
    → vo ≤ 100
    → o ≤ 100
    → All (λ s. IsPercent s.volume) ss
    → active_speakers ss ≢ 0
    → heard_volume
        (obeyed (record { overall = pos o; relative = r }) (dacp_set_volume m (pos vo) (pos o) ss))
      ≡ pos vo
unfolding dacp_set_volume
dacp_set_volume_heard m vo o r ss hv ho a active =
    let (h, scaled, ho') =
      scaled_le (highest_other m (pos 0) ss) o (highest-IsPercent m ss (pos 0) (omega arith) a) in
    let in_range : (leb_ℤ (pos 0) (pos vo) && leb_ℤ (pos vo) (pos 100)) ≡ true = ground arith in
    let some_active : (active_speakers ss == 0) ≡ false = ground arith in
    rw (in_range, scaled)
      (elim (Bool-cases (active_speakers ss == 1)) [
        | inl only ↦ rw only (heard_full vo)
        | inr more ↦
            rw (more, some_active)
              (elim (Bool-cases (leb_ℤ (pos o) (pos vo))) [
                | inl louder ↦ rw louder (heard_full vo)
                | inr quieter ↦ rw quieter (elim (Bool-cases (leb_ℤ (pos h) (pos vo))) [
                  | inl loudest ↦ rw loudest (heard_full vo)
                  | inr others ↦ rw others (below_heard m vo o r h (omega arith) (ground arith) ho')
                ])
              ])
      ])
