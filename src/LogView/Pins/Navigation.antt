-- ===== src/LogView/Pins/Navigation.antt =====
-- Stepping through the pins goes round.
use logdeck.Base.{
  ℕ, zero, suc, ◌+◌, ◌-◌, ◌%◌, ◌<◌, ◌≡◌, refl, ap, ◌∙◌, true, false, Option, none, some, List, [],
  ◌∷◌, arith, length, nat_eq, nat_Key, get_elem?, if◌then◌else◌,
}
use native.Mathlib.Nat.{mod-eq_of_lt, mod-lt, add-mod_right, mod_self}
use native.Mathlib.Decide.{dec_lt}
use logdeck.Base.JsMap.{JsMap, get}
use logdeck.Base.Int.{pos, negsuc}
use logdeck.LogView.Pins.{
  PinNavigationTarget, Offset, forward, backward, or_minus_one, filtered_of, navigate_pins,
}

abbrev pub opposite : Offset → Offset
opposite forward = backward
opposite backward = forward

wrap_under : (x n : ℕ) → x < n → (x + n) % n ≡ x
wrap_under x n h = add-mod_right x n ∙ mod-eq_of_lt h

wrap_at : (n : ℕ) → (n + n) % n ≡ 0
wrap_at n = add-mod_right n n ∙ mod_self n

-- A step and the step back, in either order.
there_and_back : (c n : ℕ) → c < n → ((c + 1 + n) % n + n - 1) % n ≡ c
there_and_back c n h = elim (dec_lt (c + 1) n) [
  | yes inside ↦ rw (wrap_under (c + 1) n inside) (ap (λ k. k % n) (shift c n) ∙ wrap_under c n h)
  | no last ↦ let e : c + 1 ≡ n = omega arith in rw (e, wrap_at n) (step_back c n e)
]
  where
    shift : (c n : ℕ) → c + 1 + n - 1 ≡ c + n
    shift c n = omega arith

    step_back : (c n : ℕ) → c + 1 ≡ n → (0 + n - 1) % n ≡ c
    step_back c n e =
        let k : 0 + n - 1 ≡ c = omega arith in let l : c < n = omega arith in rw k (mod-eq_of_lt l)

back_and_there : (c n : ℕ) → c < n → ((c + n - 1) % n + 1 + n) % n ≡ c
back_and_there zero n h =
    let k : 0 + n - 1 ≡ n - 1 = omega arith in
    let l : n - 1 < n = omega arith in
    let m : n - 1 + 1 ≡ n = omega arith in rw (k, mod-eq_of_lt l, m) (wrap_at n)
back_and_there (suc c) n h =
    let k : suc c + n - 1 ≡ c + n = omega arith in
    let l : c < n = omega arith in
    let m : c + 1 ≡ suc c = omega arith in rw (k, wrap_under c n l, m) (wrap_under (suc c) n h)

-- The position behind a step: the next one or the first behind the last, the one before or the last
-- before the first.
abbrev pub stepped : Offset → ℕ → ℕ → ℕ
stepped forward current n = if nat_eq (current + 1) n then 0 else current + 1
stepped backward zero n = n - 1
stepped backward (suc current) n = current

stepped_forward : (c n : ℕ) → c < n → (c + 1 + n) % n ≡ stepped forward c n
stepped_forward c n h = elim (dec_lt (c + 1) n) [
  | yes inside ↦
      let e : nat_eq (c + 1) n ≡ false = ground arith in rw (wrap_under (c + 1) n inside, e) refl
  | no last ↦
      let e : c + 1 ≡ n = omega arith in
      let q : nat_eq n n ≡ true = ground arith in rw (e, wrap_at n, q) refl
]

stepped_backward : (c n : ℕ) → c < n → (c + n - 1) % n ≡ stepped backward c n
stepped_backward zero n h =
    let k : 0 + n - 1 ≡ n - 1 = omega arith in
    let l : n - 1 < n = omega arith in rw (k, mod-eq_of_lt l) refl
stepped_backward (suc c) n h =
    let k : suc c + n - 1 ≡ c + n = omega arith in
    let l : c < n = omega arith in rw (k, wrap_under c n l) refl

-- The row that the map has for the pin at a position, or -1 if it has none.
abbrev pub Shows : List ℕ → JsMap ℕ ℕ → PinNavigationTarget → Type 0
Shows pins m t =
    (pin : ℕ) × (get_elem? pins t.pinned_index ≡ some pin)
    × (t.filtered_index ≡ (elim (get pin m) [ none ↦ negsuc 0 | some row ↦ pos row ]))

pin_at : (pins : List ℕ) (k : ℕ) → k < length pins → (pin : ℕ) × (get_elem? pins k ≡ some pin)
pin_at [] k h = absurd (omega arith)
pin_at (p ∷ ps) zero h = (p, refl)
pin_at (p ∷ ps) (suc k) h = pin_at ps k (omega arith)

or_minus_one_lem :
    (row : Option ℕ) → or_minus_one row ≡ (elim row [ none ↦ negsuc 0 | some r ↦ pos r ])
or_minus_one_lem none = refl
or_minus_one_lem (some r) = refl

Shows-filtered_of :
    (pins : List ℕ) (k : ℕ) (m : JsMap ℕ ℕ)
    → k < length pins
    → Shows pins m (record {
      pinned_index = k;
      filtered_index = or_minus_one (filtered_of (get_elem? pins k) m);
    })
Shows-filtered_of pins k m h =
    let (pin, at) = pin_at pins k h in (pin, at, rw at (or_minus_one_lem (get pin m)))

-- From any position in the list a step forward leads to the next one, from the last to the first, and a
-- step backward to the one before, from the first to the last; the row to scroll to is the one that the
-- map has for the pin there, or -1 if it has none. The step back from there returns, also round the ends.
pub navigate_pins-opposite :
    (pins : List ℕ) (current : ℕ) (offset : Offset) (m : JsMap ℕ ℕ)
    → current < length pins
    → (t u : PinNavigationTarget) × (navigate_pins pins current offset m ≡ some t)
      × (t.pinned_index ≡ stepped offset current (length pins))
      × Shows pins m t
      × (navigate_pins pins t.pinned_index (opposite offset) m ≡ some u)
      × (u.pinned_index ≡ current)
      × Shows pins m u
unfolding navigate_pins
navigate_pins-opposite [] current offset m h = absurd (omega arith)
navigate_pins-opposite (p ∷ ps) current forward m h =
    let n = length (p ∷ ps) in
    (
      _,
      _,
      refl,
      stepped_forward current n h,
      Shows-filtered_of (p ∷ ps) ((current + 1 + n) % n) m (mod-lt _ (omega arith)),
      refl,
      there_and_back current n h,
      Shows-filtered_of (p ∷ ps) (((current + 1 + n) % n + n - 1) % n) m (mod-lt _ (omega arith)),
    )
navigate_pins-opposite (p ∷ ps) current backward m h =
    let n = length (p ∷ ps) in
    (
      _,
      _,
      refl,
      stepped_backward current n h,
      Shows-filtered_of (p ∷ ps) ((current + n - 1) % n) m (mod-lt _ (omega arith)),
      refl,
      back_and_there current n h,
      Shows-filtered_of (p ∷ ps) (((current + n - 1) % n + 1 + n) % n) m (mod-lt _ (omega arith)),
    )
