-- ===== src/Containers/Counts.antt =====
-- The counts of the state filter.
use logdeck.Base.{
  ℕ, ◌+◌, Bool, true, false, ◌&&◌, ◌≡◌, refl, sym, ap, ◌∙◌, List, [], ◌∷◌, length, filter,
  if◌then◌else◌, arith, Bool-cases, inl, inr,
}
use mathlib.Core.Path.{subst}
use logdeck.Base.Text.{Text, codes, text_eq, text_eq_iff}
use logdeck.Containers.{
  ContainerInfo, RemovedContainerInfo, StateCounts, initial_state_counts, count_state, count_live,
  count_removed, count_container_states,
}

abbrev pub total : StateCounts → ℕ
total n = n.running + n.exited + n.paused + n.restarting + n.dead + n.removed + n.other

abbrev one_if : Bool → ℕ
one_if b = if b then 1 else 0

-- One row with state `s` was counted.
record Tally (s : Text) (n m : StateCounts) : Type 0 where
  running : m.running ≡ n.running + one_if (text_eq s (codes "running"))
  exited : m.exited ≡ n.exited + one_if (text_eq s (codes "exited"))
  paused : m.paused ≡ n.paused + one_if (text_eq s (codes "paused"))
  restarting : m.restarting ≡ n.restarting + one_if (text_eq s (codes "restarting"))
  dead : m.dead ≡ n.dead + one_if (text_eq s (codes "dead"))
  removed : m.removed ≡ n.removed
  all : total m ≡ total n + 1

count_state-Tally : (s : Text) (n : StateCounts) → Tally s n (count_state s n)
unfolding count_state
count_state-Tally s n =
    named (codes "running")
      (record {
        running = omega arith;
        exited = omega arith;
        paused = omega arith;
        restarting = omega arith;
        dead = omega arith;
        removed = refl;
        all = omega arith;
      })
      (λ a.
        named (codes "exited")
          (record {
            running = omega arith;
            exited = omega arith;
            paused = omega arith;
            restarting = omega arith;
            dead = omega arith;
            removed = refl;
            all = omega arith;
          })
          (λ b.
            named (codes "paused")
              (record {
                running = omega arith;
                exited = omega arith;
                paused = omega arith;
                restarting = omega arith;
                dead = omega arith;
                removed = refl;
                all = omega arith;
              })
              (λ c.
                named (codes "restarting")
                  (record {
                    running = omega arith;
                    exited = omega arith;
                    paused = omega arith;
                    restarting = omega arith;
                    dead = omega arith;
                    removed = refl;
                    all = omega arith;
                  })
                  (λ d.
                    named (codes "dead")
                      (record {
                        running = omega arith;
                        exited = omega arith;
                        paused = omega arith;
                        restarting = omega arith;
                        dead = omega arith;
                        removed = refl;
                        all = omega arith;
                      })
                      (λ e.
                        let rest : count_state s n ≡ record n { other = n.other + 1 } =
                          rw (a, b, c, d, e) refl in
                        rw rest (record {
                          running = omega (arith, ap one_if a);
                          exited = omega (arith, ap one_if b);
                          paused = omega (arith, ap one_if c);
                          restarting = omega (arith, ap one_if d);
                          dead = omega (arith, ap one_if e);
                          removed = refl;
                          all = omega arith;
                        }))))))
  where
    named :
        (t : Text)
        → Tally t n (count_state t n)
        → (text_eq s t ≡ false → Tally s n (count_state s n))
        → Tally s n (count_state s n)
    named t hit miss = elim (Bool-cases (text_eq s t)) [
      | inl e ↦ subst (λ u. Tally u n (count_state u n)) (sym ((text_eq_iff s t).0 e)) hit
      | inr e ↦ miss e
    ]

module _ (lower : Text → Text) (matches : ContainerInfo → Bool) where
  -- The matching rows in a state.
  abbrev pub in_state : Text → List ContainerInfo → ℕ
  in_state state cs = length (filter (λ c. matches c && text_eq (lower c.state) state) cs)

  record Tallied (cs : List ContainerInfo) (n m : StateCounts) : Type 0 where
    running : m.running ≡ n.running + in_state (codes "running") cs
    exited : m.exited ≡ n.exited + in_state (codes "exited") cs
    paused : m.paused ≡ n.paused + in_state (codes "paused") cs
    restarting : m.restarting ≡ n.restarting + in_state (codes "restarting") cs
    dead : m.dead ≡ n.dead + in_state (codes "dead") cs
    removed : m.removed ≡ n.removed
    all : total m ≡ total n + length (filter matches cs)

  in_state-cons :
      (state : Text) (c : ContainerInfo) (cs : List ContainerInfo)
      → matches c ≡ true
      → in_state state (c ∷ cs) ≡ one_if (text_eq (lower c.state) state) + in_state state cs
  in_state-cons state c cs h = rw h (elim (Bool-cases (text_eq (lower c.state) state)) [
    | inl e ↦ rw e (omega arith)
    | inr e ↦ rw e (omega arith)
  ])

  in_state-skip :
      (state : Text) (c : ContainerInfo) (cs : List ContainerInfo)
      → matches c ≡ false
      → in_state state (c ∷ cs) ≡ in_state state cs
  in_state-skip state c cs h = rw h refl

  count_live-Tallied :
      (cs : List ContainerInfo) (n : StateCounts) → Tallied cs n (count_live lower matches cs n)
  unfolding count_live
  count_live-Tallied [] n = record {
    running = omega arith;
    exited = omega arith;
    paused = omega arith;
    restarting = omega arith;
    dead = omega arith;
    removed = refl;
    all = omega arith;
  }
  count_live-Tallied (c ∷ cs) n = elim (Bool-cases (matches c)) [
    | inr out ↦
        let ih = count_live-Tallied cs n in
        let same = λ (state : Text). in_state-skip state c cs out in
        let e : count_live lower matches (c ∷ cs) n ≡ count_live lower matches cs n = rw out refl in
        rw e (record {
          running = omega (arith, ih.running, same (codes "running"));
          exited = omega (arith, ih.exited, same (codes "exited"));
          paused = omega (arith, ih.paused, same (codes "paused"));
          restarting = omega (arith, ih.restarting, same (codes "restarting"));
          dead = omega (arith, ih.dead, same (codes "dead"));
          removed = ih.removed;
          all = rw out ih.all;
        })
    | inl counted ↦
        let m = count_state (lower c.state) n in
        let t = count_state-Tally (lower c.state) n in
        let ih = count_live-Tallied cs m in
        let plus = λ (state : Text). in_state-cons state c cs counted in
        let e : count_live lower matches (c ∷ cs) n ≡ count_live lower matches cs m =
          rw counted refl in
        rw e (record {
          running = omega (arith, ih.running, t.running, plus (codes "running"));
          exited = omega (arith, ih.exited, t.exited, plus (codes "exited"));
          paused = omega (arith, ih.paused, t.paused, plus (codes "paused"));
          restarting = omega (arith, ih.restarting, t.restarting, plus (codes "restarting"));
          dead = omega (arith, ih.dead, t.dead, plus (codes "dead"));
          removed = ih.removed ∙ t.removed;
          all = rw counted (omega (arith, ih.all, t.all));
        })
  ]

  abbrev pub matching_removed : List RemovedContainerInfo → ℕ
  matching_removed rs = length (filter (λ (r : RemovedContainerInfo). matches r.info) rs)

  count_removed_lem :
      (rs : List RemovedContainerInfo) (n : StateCounts)
      → count_removed lower matches rs n ≡ record n { removed = n.removed + matching_removed rs }
  unfolding count_removed
  count_removed_lem [] n = ap (λ k. record n { removed = k }) (omega arith)
  count_removed_lem (r ∷ rs) n = elim (Bool-cases (matches r.info)) [
    | inr out ↦ rw out (count_removed_lem rs n)
    | inl counted ↦ rw counted (
        count_removed_lem rs (record n { removed = n.removed + 1 })
        ∙ ap (λ k. record n { removed = k }) (omega arith))
  ]

  -- Each named state counts the live rows that match and are in it, `removed` counts the removed rows
  -- that match, and all counts together are the rows that match: `other` is the rest.
  pub count_container_states_lem :
      (live : List ContainerInfo) (removed : List RemovedContainerInfo)
      → let n = count_container_states lower matches live removed in
        (n.running ≡ in_state (codes "running") live)
        × (n.exited ≡ in_state (codes "exited") live)
        × (n.paused ≡ in_state (codes "paused") live)
        × (n.restarting ≡ in_state (codes "restarting") live)
        × (n.dead ≡ in_state (codes "dead") live)
        × (n.removed ≡ matching_removed removed)
        × (total n ≡ length (filter matches live) + matching_removed removed)
  unfolding count_container_states
  count_container_states_lem live removed =
      let t = count_live-Tallied live initial_state_counts in
      let n = count_live lower matches live initial_state_counts in
      rw (count_removed_lem removed n) (
        omega (arith, t.running),
        omega (arith, t.exited),
        omega (arith, t.paused),
        omega (arith, t.restarting),
        omega (arith, t.dead),
        omega (arith, t.removed),
        omega (arith, t.all),
      )
