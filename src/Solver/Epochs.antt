-- ===== src/Solver/Epochs.antt =====
-- src/core/solver.hpp: FMobSolver::walk as a whole, and the loop of `walk`.
use flashmob.Prelude.{
  ℕ, zero, suc, ◌+◌, ◌-◌, ◌*◌, ◌^◌, ◌≤◌, ◌<◌, ◌≡◌, refl, ◌∙◌, subst, ap, arith, min, some, List, [],
  ◌∷◌, ltb, ◌==◌, All, inl, inr, true, false, Bool-cases,
}
use flashmob.Prelude.Words.{u32, add64, add64_small}
use flashmob.Manager.Kept.{IsTeam}
use flashmob.Solver.{
  FMobSolver, Setting, Epoch, start_walk, finish_walk, init_walks, walk_epoch, walk_epochs,
  write_paths, walk_steps, calls_of,
}
use flashmob.Solver.Output.{write_paths-entry}
use flashmob.Solver.Paths.{IsSetting, Walking, Turns, start_walk-Walking, walk_steps_lem}
use flashmob.Walkers.Process.{Call, processed}
use flashmob.Walkers.Process.Whole.{process_calls-once}

mul_le_mono : (n m len : ℕ) → n ≤ m → n * len ≤ m * len
mul_le_mono n m len h = grind arith

module _ {ℓ κ} {S : Type ℓ} (c : Setting S) {Sound : S → Type κ} {Lies : ℕ → ℕ → Type 0}
    {Step : ℕ → ℕ → Type 0} {IsVertex : ℕ → Type 0} {pn : ℕ}
    (h : IsSetting c Sound Lies Step IsVertex pn) where
  -- The output of an epoch, with paths of `len` entries.
  pub record HoldsWalks (len : ℕ) (e : Epoch c) : Type 0 where
    pub starts : (w : ℕ) → w < e.epoch_walker_num → IsVertex (e.output (w * len + 0))
    pub steps :
        (w l : ℕ)
        → w < e.epoch_walker_num
        → suc l < len
        → Step (e.output (w * len + l)) (e.output (w * len + suc l))

  -- A solver that may go on, for `total` walkers of `max` at a time, with paths of `len` entries.
  pub record Going (total max len : ℕ) (s : FMobSolver S) : Type κ where
    pub sound : Sound s.world
    pub hi : ℕ
    pub team : IsTeam IsVertex Lies pn c.socket_num c.socket_thread_num hi s.tasks
    pub enough : min s.max_epoch_walker_num s.rest_walker_num ≤ hi
    pub total_lem : s.terminated_walker_num + s.rest_walker_num ≡ total
    pub max_lem : s.max_epoch_walker_num ≡ max
    pub len_lem : s.walk_len ≡ len

  -- What the numbers of a solver have to satisfy.
  pub record Within (total max len : ℕ) : Type 0 where
    pub total_small : total < 2 ^ 64
    pub max_pos : 0 < max
    pub max_small : max < 2 ^ 32
    pub len_pos : 0 < len
    pub output_small : max * len < 2 ^ 64
    pub turns : Turns c h max

  module _ {total max len : ℕ} (b : Within total max len) where
    epoch_of : ℕ → List Call → (ℕ → ℕ) → FMobSolver S → Epoch c
    epoch_of n calls output s = record {
      epoch_walker_num = n;
      output = write_paths s.walks s.walk_len calls output;
    }

    epoch-HoldsWalks :
        (n : ℕ) (calls : List Call) (output : ℕ → ℕ) (s : FMobSolver S)
        → n ≤ max
        → ((v : ℕ) → v < n → processed v calls ≡ 1)
        → ((v : ℕ) → 0 < processed v calls → v < n)
        → s.walk_len ≡ len
        → Walking c h n (len - 1) s
        → HoldsWalks len (epoch_of n calls output s)
    unfolding epoch_of
    epoch-HoldsWalks n calls output s le once below_n e w = record {
      starts = λ i lt. rw (e, entry i 0 lt b.len_pos) (w.starts i lt);
      steps = λ i l lt below.
          rw (e, entry i l lt (omega arith), entry i (suc l) lt below)
            (w.stepped l i (omega arith) lt);
    }
      where
        small : n * len < 2 ^ 64
        small = omega (arith, mul_le_mono n max len le, b.output_small)

        entry :
            (i step : ℕ)
            → i < n
            → step < len
            → write_paths s.walks len calls output (i * len + step) ≡ s.walks step i
        entry i step lt in_path =
            write_paths-entry s.walks len n small output calls i step below_n
              (omega (arith, once i lt)) in_path

    -- The epoch, when all its parts succeed.
    epoch_succeeds :
        (output : ℕ → ℕ) (s s0 s1 : FMobSolver S) (n : ℕ) (calls : List Call)
        → u32 (min s.max_epoch_walker_num s.rest_walker_num) ≡ n
        → ltb s.max_epoch_walker_num n ≡ false
        → start_walk c n s ≡ some s0
        → walk_steps c n (s.walk_len - 1) s0 ≡ some s1
        → calls_of c n (c.write_turns s1.rest_walker_num) ≡ some calls
        → ltb s1.rest_walker_num n ≡ false
        → walk_epoch c output s
          ≡ some (
            record s1 {
              terminated_walker_num = add64 s1.terminated_walker_num n;
              rest_walker_num = s1.rest_walker_num - n;
            },
            epoch_of n calls output s1,
          )
    unfolding walk_epoch finish_walk init_walks epoch_of
    epoch_succeeds output s s0 s1 n calls n_is checked started walked made left =
        rw (n_is, checked, started, walked, made, left) refl

    -- One epoch of a solver that may go on, for a setting as `IsSetting` says, and numbers, ranges
    -- with room for the counters and turns of the threads as `Within` says: no CHECK fails and
    -- process_walkers ends, the epoch takes as many walkers as are left up to the maximum, its
    -- output holds a walk for each of them, the walkers left are fewer by so many, and the solver
    -- may go on.
    pub walk_epoch-HoldsWalks :
        (output : ℕ → ℕ) (s : FMobSolver S)
        → Going total max len s
        → (s' : FMobSolver S) × (e : Epoch c) × (walk_epoch c output s ≡ some (s', e))
          × (e.epoch_walker_num ≡ min max s.rest_walker_num)
          × HoldsWalks len e
          × (s'.rest_walker_num ≡ s.rest_walker_num - e.epoch_walker_num)
          × Going total max len s'
    unfolding calls_of epoch_of
    walk_epoch-HoldsWalks output s g =
        let n = min s.max_epoch_walker_num s.rest_walker_num in
        let n32 : u32 n ≡ n = omega (arith, g.max_lem, b.max_small) in
        let at_most : n ≤ max = omega (arith, g.max_lem) in
        let (s0, e0, w0, same0) =
          start_walk-Walking c h n max g.hi s b.turns at_most g.sound g.enough g.team in
        let (s', e, w, same) = walk_steps_lem c h n (s.walk_len - 1) s0 w0 in
        let rest = ap (λ (x : FMobSolver S). x.rest_walker_num) same ∙ same0.rest in
        let done = ap (λ (x : FMobSolver S). x.terminated_walker_num) same ∙ same0.done in
        let len' = ap (λ (x : FMobSolver S). x.walk_len) same ∙ same0.len in
        let max' = ap (λ (x : FMobSolver S). x.max_epoch_walker_num) same ∙ same0.most in
        let (calls, made, once, below) =
          process_calls-once c.socket_num c.socket_thread_num max n c.ranges b.turns.ranged
            (c.write_turns s'.rest_walker_num) at_most (b.turns.writes s'.rest_walker_num) in
        let add : add64 s'.terminated_walker_num n ≡ s'.terminated_walker_num + n =
          add64_small s'.terminated_walker_num n
            (omega (arith, done, g.total_lem, b.total_small)) in
        let checked : ltb s.max_epoch_walker_num n ≡ false = ground arith in
        let left : ltb s'.rest_walker_num n ≡ false = ground (arith, rest) in
        (
          record s' {
            terminated_walker_num = add64 s'.terminated_walker_num n;
            rest_walker_num = s'.rest_walker_num - n;
          },
          epoch_of n calls output s',
          epoch_succeeds output s s0 s' n calls n32 checked e0 e made left,
          ap (λ x. min x s.rest_walker_num) g.max_lem,
          epoch-HoldsWalks n calls output s' at_most once below (len' ∙ g.len_lem)
              (subst (λ x. Walking c h n (x - 1) s') g.len_lem w),
          ap (λ x. x - n) rest,
          record {
            sound = w.sound;
            hi = w.hi;
            team = w.team;
            enough = omega (arith, w.enough, max', rest);
            total_lem = omega (arith, add, rest, done, g.total_lem);
            max_lem = max' ∙ g.max_lem;
            len_lem = len' ∙ g.len_lem;
          },
        )

  -- The walkers of the epochs: `terminated_walker_num` of the loop.
  pub walked_num : List (Epoch c) → ℕ
  walked_num [] = 0
  walked_num (e ∷ es) = e.epoch_walker_num + walked_num es

  -- With fuel for one round for each walker that is left, the loop over the epochs ends, for a
  -- setting as `IsSetting` says, numbers and turns of the threads as `Within` says, and a solver
  -- that may go on: no CHECK fails, the epochs walk as many walkers as were left, the output of
  -- every epoch holds a walk for each of its walkers, which begins at a vertex and makes a step at
  -- each entry, and all walkers are counted as terminated.
  pub walk_epochs-HoldsWalks :
      (total max len : ℕ)
      → Within total max len
      → (fuel : ℕ) (output : ℕ → ℕ) (s : FMobSolver S) → s.rest_walker_num ≤ fuel
      → Going total max len s
      → (es : List (Epoch c)) × (s' : FMobSolver S) × (walk_epochs c fuel output s ≡ some (es, s'))
        × (walked_num es ≡ s.rest_walker_num)
        × All (HoldsWalks len) es
        × (s'.terminated_walker_num ≡ total)
  unfolding walk_epochs walked_num
  walk_epochs-HoldsWalks total max len b zero output s le g =
      let e : (s.rest_walker_num == 0) ≡ true = ground arith in
      ([], s, rw (e, walk_epochs) refl, omega arith, tt, omega (arith, g.total_lem))
  walk_epochs-HoldsWalks total max len b (suc fuel) output s le g =
      elim (Bool-cases (s.rest_walker_num == 0)) [
        | inl e ↦ ([], s, rw (e, walk_epochs) refl, ground arith, tt, ground (arith, g.total_lem))
        | inr ne ↦
            let (s', e, one, n, holds, rest, g') = walk_epoch-HoldsWalks b output s g in
            let positive : 0 < s.rest_walker_num = ground arith in
            let (es, s'', more, num, all, done) =
              walk_epochs-HoldsWalks total max len b fuel e.output s'
                (omega (arith, rest, n, b.max_pos, positive)) g' in
            (
              e ∷ es,
              s'',
              rw (ne, one, more, walk_epochs) refl,
              omega (arith, num, rest, n),
              (holds, all),
              done,
            )
      ]
