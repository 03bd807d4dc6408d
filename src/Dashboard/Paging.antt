-- ===== src/Dashboard/Paging.antt =====
-- The pages of the dashboard's rows.
use logdeck.Base.{
  ℕ, zero, suc, ◌+◌, ◌-◌, ◌*◌, ◌/◌, ◌≤◌, ◌<◌, min, max, false, ◌≡◌, refl, sym, ap, ◌∙◌, some, List,
  [], ◌++◌, length, drop, take, take_all, take-drop, length-take, length-drop, ltb, nat_eq, arith,
  Bool-cases, inl, inr,
}
use logdeck.Base.Int.{sub_ℕ}
use native.Mathlib.Nat.{suc-mul, div-add-mod', mod-lt, mul-le-mul_right}
use logdeck.Containers.{ContainerInfo}
use logdeck.Dashboard.{DashboardParams, set_page}
use logdeck.Dashboard.Rows.{total_pages, correct_page, start_index, end_index, page_items}

-- The first pages, one after the other.
abbrev pub all_pages : ℕ → DashboardParams → List ContainerInfo → List ContainerInfo
all_pages zero p rows = []
all_pages (suc k) p rows = all_pages k p rows ++ page_items (record p { page = suc k }) rows

all_pages-take :
    (k : ℕ) (p : DashboardParams) (rows : List ContainerInfo)
    → all_pages k p rows ≡ take (k * p.page_size) rows
unfolding page_items
all_pages-take zero p rows = let e : 0 * p.page_size ≡ 0 = omega arith in rw e refl
all_pages-take (suc k) p rows =
    ap (λ r. r ++ take p.page_size (drop (k * p.page_size) rows)) (all_pages-take k p rows)
    ∙ take-drop (k * p.page_size) p.page_size rows
    ∙ ap (λ n. take n rows) (sym (suc-mul k p.page_size))

-- `Math.ceil`.
ceil_bounds :
    (n size : ℕ)
    → 0 < size
    → (n ≤ (n + size - 1) / size * size) × ((n + size - 1) / size * size < n + size)
ceil_bounds n size pos_size =
    let d = div-add-mod' (n + size - 1) size in
    let r = mod-lt (n + size - 1) pos_size in (omega (arith, d, r), omega (arith, d, r))

-- What is shown on a page: its rows, at least one, are numbered up to the last of them.
abbrev pub Shows : DashboardParams → List ContainerInfo → Type 0
Shows p rows =
    (1 ≤ length (page_items p rows))
    × (length (page_items p rows) ≤ p.page_size)
    × (start_index p rows ≡ sub_ℕ (end_index p rows + 1) (length (page_items p rows)))

sub_ℕ-same : (a b c d : ℕ) → a + d ≡ c + b → sub_ℕ a b ≡ sub_ℕ c d
sub_ℕ-same a b c d h = ground arith

Shows-page :
    (k : ℕ) (p : DashboardParams) (rows : List ContainerInfo)
    → 0 < p.page_size
    → k * p.page_size < length rows
    → Shows (record p { page = suc k }) rows
unfolding page_items start_index end_index
Shows-page k p rows positive inside =
    let items = take p.page_size (drop (k * p.page_size) rows) in
    let size : length items ≡ min p.page_size (length rows - k * p.page_size) =
      length-take p.page_size (drop (k * p.page_size) rows)
      ∙ ap (min p.page_size) (length-drop (k * p.page_size) rows) in
    let some_rows : nat_eq (length rows) 0 ≡ false = ground arith in
    let m = suc-mul k p.page_size in
    (
      omega (arith, size),
      omega (arith, size),
      rw some_rows (
          sub_ℕ-same (suc k * p.page_size + 1) p.page_size
            (min (suc k * p.page_size) (length rows) + 1) (length items) (omega (arith, size, m))),
    )

total_pages_lem :
    (p : DashboardParams) (rows : List ContainerInfo)
    → 0 < p.page_size
    → 0 < length rows
    → total_pages p rows ≡ some ((length rows + p.page_size - 1) / p.page_size)
unfolding total_pages
total_pages_lem p rows positive inside =
    let a : nat_eq (length rows) 0 ≡ false = ground arith in
    let b : nat_eq p.page_size 0 ≡ false = ground arith in rw (a, b) refl

correct_page_lem :
    (p : DashboardParams) (rows : List ContainerInfo) (total : ℕ)
    → total_pages p rows ≡ some total
    → 1 ≤ total
    → correct_page rows p ≡ record p { page = min p.page total }
unfolding correct_page set_page
correct_page_lem p rows total e one = elim (Bool-cases (ltb total p.page)) [
  | inl q ↦
      let same : max 1 total ≡ min p.page total = ground arith in
      rw (e, correct_page, q) (ap (λ k. record p { page = k }) same)
  | inr q ↦
      let same : p.page ≡ min p.page total = ground arith in
      rw (e, correct_page, q) (ap (λ k. record p { page = k }) same)
]

at_least_one : (t size n : ℕ) → n ≤ t * size → 0 < n → 1 ≤ t
at_least_one zero size n h inside = absurd (omega (arith, h))
at_least_one (suc t) size n h inside = omega arith

Shows-up_to :
    (page t : ℕ) (p : DashboardParams) (rows : List ContainerInfo)
    → 0 < p.page_size
    → 1 ≤ page
    → page ≤ t
    → t * p.page_size < length rows + p.page_size
    → Shows (record p { page = page }) rows
Shows-up_to zero t p rows positive one h inside = absurd (omega arith)
Shows-up_to (suc k) t p rows positive one h inside =
    let m = mul-le-mul_right {m = suc k} {n = t} p.page_size h in
    let s = suc-mul k p.page_size in Shows-page k p rows positive (omega (arith, m, s))

-- With a page size and a page of at least one, and rows to show: the pages up to the last together are the
-- rows, each once and in order; the effect that corrects the page changes nothing but the page, to the
-- last one if it was beyond it; and behind it the page is at least one, lists at least one row and no more
-- than the page size, and counts as many, from the number of its first row to that of its last.
pub correct_page-Shows :
    (p : DashboardParams) (rows : List ContainerInfo) (total : ℕ)
    → total_pages p rows ≡ some total
    → 0 < p.page_size
    → 1 ≤ p.page
    → 0 < length rows
    → (all_pages total p rows ≡ rows)
      × (correct_page rows p ≡ record p { page = min p.page total })
      × (1 ≤ min p.page total)
      × Shows (correct_page rows p) rows
correct_page-Shows p rows total e positive one inside =
    let t = (length rows + p.page_size - 1) / p.page_size in
    let bounds = ceil_bounds (length rows) p.page_size positive in
    let known : total ≡ t = unwrap (sym e ∙ total_pages_lem p rows positive inside) in
    let least : 1 ≤ total = rw known (at_least_one t p.page_size (length rows) bounds.0 inside) in
    let corrected = correct_page_lem p rows total e least in
    (
      all_pages-take total p rows ∙ (rw known (take_all (t * p.page_size) rows bounds.0)),
      corrected,
      omega arith,
      rw corrected (
          Shows-up_to (min p.page total) total p rows positive (omega arith) (omega arith)
            (rw known bounds.1)),
    )
  where
    unwrap : {a b : ℕ} → some a ≡ some b → a ≡ b
    unwrap q = cc
