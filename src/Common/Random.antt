-- ===== src/Common/Random.antt =====
-- The random numbers of src/common.c and src/player.c: `ranval`, `raninit`, `r64i`, and
-- `rand_in_range`. Words are numbers with the wrap-around written out.
use Prim.Native.Nat.{bit_or, bit_xor}
use shairport_sync_for_openw.Prelude.{
  ℕ, zero, suc, ◌+◌, ◌-◌, ◌*◌, ◌/◌, ◌^◌, ◌<◌, ◌≡◌, refl, arith, u32, u64, sub64,
}

-- `ranctx`.
pub record RanCtx : Type 0 where
  pub a : ℕ
  pub b : ℕ
  pub c : ℕ
  pub d : ℕ

pub rot : ℕ → ℕ → ℕ
rot x k = bit_or (u64 (x * 2 ^ k)) (x / 2 ^ (64 - k))

pub ranval : RanCtx → ℕ × RanCtx
ranval x =
    let e = sub64 x.a (rot x.b 7) in
    let a' = bit_xor x.b (rot x.c 13) in
    let b' = u64 (x.c + rot x.d 37) in
    let c' = u64 (x.d + e) in
    let d' = u64 (e + a') in (d', record { a = a'; b = b'; c = c'; d = d' })

-- `n` more values that are not used.
pub stir : ℕ → RanCtx → RanCtx
stir zero x = x
stir (suc n) x = stir n (ranval x).1

pub raninit : ℕ → RanCtx
raninit seed = stir 20 (record { a = 0xf1ea5eed; b = seed; c = seed; d = seed })

pub r64i : RanCtx → ℕ × RanCtx
r64i x = ((ranval x).0 / 2, (ranval x).1)

pub r64i-lt : (x : RanCtx) → (r64i x).0 < 2 ^ 63
unfolding r64i ranval
r64i-lt x = omega arith

-- The number, with the static variable after it. The limit is positive where it is called.
pub rand_in_range : ℕ → ℕ → ℕ × ℕ
rand_in_range exclusive_range_limit lcg_prev =
    (lcg_prev * exclusive_range_limit / 2 ^ 32, u32 (u32 (lcg_prev * 69069) + 3))

-- With a positive limit, and a static variable that fits its type, the number is below the limit,
-- and the static variable fits its type again.
pub rand_in_range-lt :
    (limit lcg_prev : ℕ)
    → 0 < limit
    → lcg_prev < 2 ^ 32
    → ((rand_in_range limit lcg_prev).0 < limit) × ((rand_in_range limit lcg_prev).1 < 2 ^ 32)
unfolding rand_in_range
rand_in_range-lt limit lcg_prev pos small = (below, omega arith)
  where
    product : lcg_prev * limit < 2 ^ 32 * limit
    product = grind arith

    below : lcg_prev * limit / 2 ^ 32 < limit
    below = omega (arith, product)

first_value : (rand_in_range 1000 12345).1 ≡ 852656808
unfolding rand_in_range
first_value = refl

seeded : (r64i (raninit 0)).0 ≡ 2710289663541110522
unfolding r64i raninit stir ranval rot
seeded = refl
