-- ===== src/Solver/Paths.antt =====
-- src/core/solver.hpp, FMobSolver::walk: the start vertices and the steps.
use flashmob.Prelude.{
  ℕ, zero, suc, ◌-◌, ◌≤◌, ◌<◌, ◌≡◌, inl, inr, refl, arith, write, write_self, write_ne,
  lt_suc-cases, none, some, ◌*◌, ◌%◌, ◌==◌, ltb, true, Bool-cases, sym, subst, List, [], ◌∷◌,
}
use flashmob.Prelude.Loops.{for_range}
use flashmob.Prelude.Words.{u64}
use native.Mathlib.Decide.{ℕ_discrete}
use flashmob.Walkers.Process.{Call, for_calls, processed}
use flashmob.Walkers.Process.Whole.{IsRanged, IsFair, process_calls-once}
use flashmob.Walk.Partitions.{IsOrder}
use flashmob.Walk.Blocks.{IsSampler}
use flashmob.Manager.Kept.{IsTeam}
use flashmob.Manager.Round.{round-Step}
use flashmob.Solver.{
  FMobSolver, Setting, Drawn, page_size, is_aligned, alloc_walker_array, dealloc_walker_array,
  renew_start_vertices, draw_one, draw_calls, calls_of, drawn_into, get_walker_start_vertices,
  copy_starts, copied_to, after_step, walk_step, walk_steps, start_walk,
}

-- What the solver relies on: sampling leads from vertex to vertex, drawing gives a vertex, each
-- step takes every partition once, the walkers of each socket begin at a page, as
-- WalkerManager::init makes them, and the system calls succeed.
pub record IsSetting {ℓ κ} {S : Type ℓ} (c : Setting S) (Sound : S → Type κ) (Lies : ℕ → ℕ → Type 0)
    (Step : ℕ → ℕ → Type 0) (IsVertex : ℕ → Type 0) (pn : ℕ) : Type (ℓ ⊔ κ) where
  pub is_sampler : IsSampler c.sample Sound Lies Step
  pub closed : (v w : ℕ) → IsVertex v → Step v w → IsVertex w
  pub draws : (thread : ℕ) (w : S) → Sound w → IsVertex (c.draw thread w).0
  pub draw_keeps : (thread : ℕ) (w : S) → Sound w → Sound (c.draw thread w).1
  pub orders : (l_i : ℕ) → IsOrder pn (c.order l_i)
  pub aligned :
      (s_i : ℕ)
      → s_i < c.socket_num
      → (c.socket_ranges s_i).first < (c.socket_ranges s_i).last
      → u64 (4 * (c.socket_ranges s_i).first) % page_size ≡ 0
  pub mmaps : (size : ℕ) → c.mmap size ≡ true
  pub munmaps : (size : ℕ) → c.munmap size ≡ true

module _ {ℓ κ} {S : Type ℓ} (c : Setting S) {Sound : S → Type κ} {Lies : ℕ → ℕ → Type 0}
    {Step : ℕ → ℕ → Type 0} {IsVertex : ℕ → Type 0} {pn : ℕ}
    (h : IsSetting c Sound Lies Step IsVertex pn) where
  drawn_lem :
      (calls : List Call) (d : Drawn S)
      → Sound d.world
      → Sound (draw_calls c calls d).world
        × ((i : ℕ) → 0 < processed i calls → IsVertex ((draw_calls c calls d).vertices i))
  unfolding draw_calls draw_one for_calls processed
  drawn_lem [] d sound = (sound, λ i pos. absurd (omega (arith, pos)))
  drawn_lem (e ∷ calls) d sound =
      let (ih, vs) = drawn_lem calls d sound in
      (
        h.draw_keeps e.thread _ ih,
        λ i pos. elim (ℕ_discrete i e.walker) [
          | yes at ↦ rw (at, write_self) (h.draws e.thread _ ih)
          | no ne ↦
              rw (write_ne (draw_calls c calls d).vertices e.walker _ i ne)
                (vs i (ground (arith, pos)))
        ],
      )

  aligned : (n : ℕ) → n ≤ c.socket_num → is_aligned c n ≡ true
  unfolding is_aligned
  aligned zero le = refl
  aligned (suc n) le = elim (Bool-cases (ltb (c.socket_ranges n).first (c.socket_ranges n).last)) [
    | inr e ↦ rw e (aligned n (omega arith))
    | inl e ↦
        let page : (u64 (4 * (c.socket_ranges n).first) % page_size == 0) ≡ true =
          ground (arith, h.aligned n (omega arith) (ground arith)) in
        rw (e, page) (aligned n (omega arith))
  ]

  -- What stays as it is while the start vertices are drawn.
  pub record Same (s s' : FMobSolver S) : Type ℓ where
    pub rest : s'.rest_walker_num ≡ s.rest_walker_num
    pub done : s'.terminated_walker_num ≡ s.terminated_walker_num
    pub most : s'.max_epoch_walker_num ≡ s.max_epoch_walker_num
    pub len : s'.walk_len ≡ s.walk_len
    pub tasks : s'.tasks ≡ s.tasks

  renew_lem :
      (n : ℕ) (s : FMobSolver S)
      → (s' : FMobSolver S) × (renew_start_vertices c n s ≡ some s')
        × Same s s'
        × (s'.world ≡ s.world)
  unfolding renew_start_vertices alloc_walker_array dealloc_walker_array
  renew_lem n s =
      let kept : Same s s = record {
        rest = refl;
        done = refl;
        most = refl;
        len = refl;
        tasks = refl;
      } in
      let fresh : FMobSolver S = record s {
        walker_start_vertices = λ w_i. 0;
        has_start_vertices = true;
      } in
      let anew : Same s fresh = record {
        rest = refl;
        done = refl;
        most = refl;
        len = refl;
        tasks = refl;
      } in
      elim (Bool-cases (ltb s.walker_start_vertices_num n)) [
        | inr e ↦ (s, rw e refl, kept, refl)
        | inl e ↦ elim (Bool-cases s.has_start_vertices) [
          | inl there ↦ (
            fresh,
            rw (e, there, h.munmaps, h.mmaps, aligned c.socket_num (omega arith)) refl,
            anew,
            refl,
          )
          | inr null ↦
              (fresh, rw (e, null, h.mmaps, aligned c.socket_num (omega arith)) refl, anew, refl)
        ]
      ]

  copy_starts_lem :
      (start : ℕ → ℕ) (n : ℕ) (current : ℕ → ℕ) (i : ℕ)
      → i < n
      → copy_starts c start n current i ≡ start i
  unfolding copy_starts for_range write
  copy_starts_lem start zero current i lt = absurd (omega arith)
  copy_starts_lem start (suc n) current i lt = ground (arith, copy_starts_lem start n current i)

  -- The state after step l_i of an epoch of n walkers: the paths so far are walks, and the tasks
  -- are ready for the next step.
  pub record Walking (n l_i : ℕ) (s : FMobSolver S) : Type κ where
    pub sound : Sound s.world
    pub vertices : (i : ℕ) → i < n → IsVertex (s.walks l_i i)
    pub starts : (i : ℕ) → i < n → IsVertex (s.walks 0 i)
    pub stepped : (l i : ℕ) → l < l_i → i < n → Step (s.walks l i) (s.walks (suc l) i)
    pub hi : ℕ
    pub enough : n ≤ hi
    pub team : IsTeam IsVertex Lies pn c.socket_num c.socket_thread_num hi s.tasks

  -- The threads get through both calls of process_walkers for every epoch of at most `most` walkers.
  pub record Turns (most : ℕ) : Type 0 where
    pub ranged : IsRanged c.socket_num c.socket_thread_num most c.ranges
    pub draws : (rest : ℕ) → IsFair c.socket_num c.socket_thread_num c.ranges (c.draw_turns rest)
    pub writes : (rest : ℕ) → IsFair c.socket_num c.socket_thread_num c.ranges (c.write_turns rest)

  pub start_walk-Walking :
      (n most hi : ℕ) (s : FMobSolver S)
      → Turns most
      → n ≤ most
      → Sound s.world
      → n ≤ hi
      → IsTeam IsVertex Lies pn c.socket_num c.socket_thread_num hi s.tasks
      → (s' : FMobSolver S) × (start_walk c n s ≡ some s') × Walking n 0 s' × Same s s'
  unfolding start_walk get_walker_start_vertices drawn_into copied_to calls_of
  start_walk-Walking n most hi s turns below sound le team =
      let (r, renewed, same, world) = renew_lem n s in
      let (calls, made, once, _) =
        process_calls-once c.socket_num c.socket_thread_num most n c.ranges turns.ranged
          (c.draw_turns s.rest_walker_num) below (turns.draws s.rest_walker_num) in
      let (sound', vs) =
        drawn_lem calls (record { vertices = r.walker_start_vertices; world = r.world })
          (subst Sound (sym world) sound) in
      let s' = copied_to c n (drawn_into c n calls r) in
      let start : (i : ℕ) → i < n → IsVertex (s'.walks 0 i) = λ i lt.
        rw (write_self, copy_starts_lem _ n (r.walks 0) i lt) (vs i (omega (arith, once i lt))) in
      (
        s',
        rw (renewed, made, start_walk) refl,
        record {
          sound = sound';
          vertices = start;
          starts = start;
          stepped = λ l i lt below'. absurd (omega arith);
          hi = hi;
          enough = le;
          team =
              subst (IsTeam IsVertex Lies pn c.socket_num c.socket_thread_num hi) (sym same.tasks)
                team;
        },
        record {
          rest = same.rest;
          done = same.done;
          most = same.most;
          len = same.len;
          tasks = same.tasks;
        },
      )

  walk_step_lem :
      (n l_i : ℕ) (s : FMobSolver S)
      → Walking n l_i s
      → (s' : FMobSolver S) × (walk_step c n (suc l_i) s ≡ some s')
        × Walking n (suc l_i) s'
        × (s' ≡ record s { walks = s'.walks; tasks = s'.tasks; world = s'.world })
  unfolding walk_step after_step
  walk_step_lem n l_i s k =
      let (r, e, steps, sound, team) =
        round-Step h.is_sampler IsVertex pn (s.walks l_i) none c.socket_num c.socket_thread_num n
          k.hi (c.order (suc l_i)) s.tasks (s.walks (suc l_i)) s.world k.team k.enough k.vertices
          (h.orders (suc l_i)) k.sound in
      let at : suc l_i - 1 ≡ l_i = omega arith in
      (
        after_step c (suc l_i) s r,
        rw (at, e, walk_step) refl,
        record {
          sound = sound;
          vertices = λ i lt. rw write_self (h.closed _ _ (k.vertices i lt) (steps i lt));
          starts = λ i lt. rw (write_ne s.walks (suc l_i) r.next 0 (omega arith)) (k.starts i lt);
          stepped = λ l i lt below. elim (lt_suc-cases l l_i lt) [
            | inl here ↦
                rw (here, write_self, write_ne s.walks (suc l_i) r.next l_i (omega arith))
                  (steps i below)
            | inr less ↦
                rw
                  (
                    write_ne s.walks (suc l_i) r.next l (omega arith),
                    write_ne s.walks (suc l_i) r.next (suc l) (omega arith),
                  )
                  (k.stepped l i less below)
          ];
          hi = n;
          enough = omega arith;
          team = team;
        },
        refl,
      )

  pub walk_steps_lem :
      (n k : ℕ) (s : FMobSolver S)
      → Walking n 0 s
      → (s' : FMobSolver S) × (walk_steps c n k s ≡ some s')
        × Walking n k s'
        × (s' ≡ record s { walks = s'.walks; tasks = s'.tasks; world = s'.world })
  unfolding walk_steps
  walk_steps_lem n zero s w = (s, refl, w, refl)
  walk_steps_lem n (suc k) s w =
      let (s', e, w', same) = walk_steps_lem n k s w in
      let (s'', e', w'', same') = walk_step_lem n k s' w' in
      (s'', rw (e, e', walk_steps) refl, w'', rw same' (rw same refl))
