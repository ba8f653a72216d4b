-- ===== src/Sampler/Similar/Runs.antt =====
-- src/core/sampler.hpp, SimilarDegreeDirectSampler::init: the hints cut the vertices into runs.
use flashmob.Prelude.{
  ℕ, suc, ◌+◌, ◌-◌, ◌*◌, ◌^◌, ◌≤◌, ◌<◌, ◌≡◌, ◌≢◌, refl, sym, subst, ap, ◌∙◌, arith, write, ◌⊎◌, inl,
  inr, lt_suc-cases,
}
use native.Mathlib.Decide.{ℕ_discrete}
use flashmob.Sampler.{Adjacency}
use flashmob.Sampler.Similar.{AdjHint, Hinting, end_hint, start_hint}

-- The lists from `lo` to `hi` lie behind one another, and the first is not empty.
pub record IsDense (g : Adjacency) (lo hi : ℕ) : Type 0 where
  pub behind :
      (v : ℕ)
      → lo ≤ v
      → suc v < hi
      → (g.adjlists (suc v)).begin ≡ (g.adjlists v).begin + (g.adjlists v).degree
  pub first_pos : 0 < (g.adjlists lo).degree
  pub small : (v : ℕ) → lo ≤ v → v < hi → (hi - lo) * (g.adjlists v).degree < 2 ^ 32
  pub bounded : hi < 2 ^ 32

-- The vertices of a hint have its degree, and their lists lie where it says.
pub record IsRun (g : Adjacency) (h : AdjHint) : Type 0 where
  pub degrees : (v : ℕ) → h.vertex_begin ≤ v → v < h.vertex_end → (g.adjlists v).degree ≡ h.degree
  pub begins :
      (v : ℕ)
      → h.vertex_begin ≤ v
      → v < h.vertex_end
      → (g.adjlists v).begin ≡ h.edge_begin + (v - h.vertex_begin) * h.degree

pub record IsHinted (g : Adjacency) (lo hi num : ℕ) (hints : ℕ → AdjHint) : Type 0 where
  pub first : (hints 0).vertex_begin ≡ lo
  pub from : (h : ℕ) → h < num → lo ≤ (hints h).vertex_begin
  pub next : (h : ℕ) → suc h < num → (hints (suc h)).vertex_begin ≡ (hints h).vertex_end
  pub final : (hints (num - 1)).vertex_end ≡ hi
  pub not_empty : (h : ℕ) → h < num → (hints h).vertex_begin < (hints h).vertex_end
  pub runs : (h : ℕ) → h < num → IsRun g (hints h)

next_row : (r d q : ℕ) → r ≡ suc q → q * d + d ≡ r * d
next_row r d q e = rw e (omega arith)

module _ (g : Adjacency) (lo hi : ℕ) (d : IsDense g lo hi) where
  -- After the vertices before `v`, with the last hint ended there.
  pub record IsStarted (v : ℕ) (s : Hinting) : Type 0 where
    pub num_pos : 0 < s.hint_num
    pub num-le : s.hint_num ≤ v - lo
    pub current : s.current_degree ≡ (g.adjlists (v - 1)).degree
    pub hinted : IsHinted g lo v s.hint_num (end_hint s.hint_num v s.hints)

  -- The hints after a run that begins at v, ended at e.
  abbrev fresh : ℕ → ℕ → AdjHint
  fresh v e = record {
    vertex_begin = v;
    vertex_end = e;
    degree = (g.adjlists v).degree;
    edge_begin = (g.adjlists v).begin;
  }

  fresh-IsRun : (v : ℕ) → IsRun g (fresh v (suc v))
  fresh-IsRun v = record {
    degrees = λ w from below. let at : w ≡ v = omega arith in rw at;
    begins = λ w from below.
        let at : w ≡ v = omega arith in
        let none_before : v - v ≡ 0 = omega arith in rw (at, none_before) (omega arith);
  }

  ended_old :
      (m v e h : ℕ) (hints : ℕ → AdjHint)
      → 0 < m
      → h < m
      → end_hint (m + 1) e (end_hint m v (start_hint g v m hints)) h ≡ end_hint m v hints h
  unfolding end_hint start_hint write
  ended_old m v e h hints pos lt = ground arith

  ended_new :
      (m v e : ℕ) (hints : ℕ → AdjHint)
      → 0 < m
      → end_hint (m + 1) e (end_hint m v (start_hint g v m hints)) m ≡ fresh v e
  unfolding end_hint start_hint write
  ended_new m v e hints pos = ground arith

  ended_first :
      (v e : ℕ) (hints : ℕ → AdjHint) → end_hint 1 e (start_hint g v 0 hints) 0 ≡ fresh v e
  unfolding end_hint start_hint write
  ended_first v e hints = refl

  ended_other :
      (m e e' h : ℕ) (hints : ℕ → AdjHint)
      → h ≢ m - 1
      → end_hint m e hints h ≡ end_hint m e' hints h
  unfolding end_hint write
  ended_other m e e' h hints ne = ground arith

  ended_last :
      (m e e' : ℕ) (hints : ℕ → AdjHint)
      → end_hint m e hints (m - 1) ≡ record (end_hint m e' hints (m - 1)) { vertex_end = e }
  unfolding end_hint write
  ended_last m e e' hints = ground arith

  extend-IsRun :
      (h : AdjHint) (v : ℕ)
      → IsRun g h
      → lo ≤ h.vertex_begin
      → h.vertex_begin < h.vertex_end
      → h.vertex_end ≡ v
      → v < hi
      → (g.adjlists v).degree ≡ (g.adjlists (v - 1)).degree
      → IsRun g (record h { vertex_end = suc v })
  extend-IsRun h v run from not_empty e below same = record {
    degrees = λ w lo' hi'. elim (lt_suc-cases w v hi') [
      | inl at ↦ rw at (same ∙ deg)
      | inr less ↦ run.degrees w lo' (omega (arith, e))
    ];
    begins = λ w lo' hi'. elim (lt_suc-cases w v hi') [
      | inl at ↦ rw at begin_lem
      | inr less ↦ run.begins w lo' (omega (arith, e))
    ];
  }
    where
      deg : (g.adjlists (v - 1)).degree ≡ h.degree
      deg = run.degrees (v - 1) (omega (arith, e)) (omega (arith, e))

      begin_lem : (g.adjlists v).begin ≡ h.edge_begin + (v - h.vertex_begin) * h.degree
      begin_lem =
          let back : suc (v - 1) ≡ v = omega (arith, e) in
          let step = d.behind (v - 1) (omega (arith, e)) (omega (arith, e)) in
          let rows : (v - 1 - h.vertex_begin) * h.degree + h.degree
              ≡ (v - h.vertex_begin) * h.degree =
            next_row (v - h.vertex_begin) h.degree (v - 1 - h.vertex_begin) (omega (arith, e)) in
          subst (λ x. (g.adjlists x).begin ≡ h.edge_begin + (v - h.vertex_begin) * h.degree) back
            (omega
              (arith, step, deg, rows, run.begins (v - 1) (omega (arith, e)) (omega (arith, e))))

  pub extend_hints :
      (v m : ℕ) (hints : ℕ → AdjHint)
      → 0 < m
      → v < hi
      → (g.adjlists v).degree ≡ (g.adjlists (v - 1)).degree
      → IsHinted g lo v m (end_hint m v hints)
      → IsHinted g lo (suc v) m (end_hint m (suc v) hints)
  extend_hints v m hints pos below same k = record {
    first = begin_kept 0 ∙ k.first;
    from = λ h lt. rw (begin_kept h) (k.from h lt);
    next = λ h lt.
        rw (begin_kept (suc h), ended_other m (suc v) v h hints (omega arith)) (k.next h lt);
    final = ap (λ (x : AdjHint). x.vertex_end) (ended_last m (suc v) v hints);
    not_empty = λ h lt. elim (ℕ_discrete h (m - 1)) [
      | yes e ↦
          rw (e, ended_last m (suc v) v hints)
            (omega (arith, k.not_empty (m - 1) (omega arith), k.final))
      | no ne ↦ rw (ended_other m (suc v) v h hints ne) (k.not_empty h lt)
    ];
    runs = λ h lt. elim (ℕ_discrete h (m - 1)) [
      | yes e ↦
          rw (e, ended_last m (suc v) v hints)
            (extend-IsRun (end_hint m v hints (m - 1)) v (k.runs (m - 1) (omega arith))
              (k.from (m - 1) (omega arith)) (k.not_empty (m - 1) (omega arith)) k.final below same)
      | no ne ↦ rw (ended_other m (suc v) v h hints ne) (k.runs h lt)
    ];
  }
    where
      begin_kept :
          (h : ℕ) → (end_hint m (suc v) hints h).vertex_begin ≡ (end_hint m v hints h).vertex_begin
      begin_kept h = elim (ℕ_discrete h (m - 1)) [
        | yes e ↦ rw (e, ended_last m (suc v) v hints) refl
        | no ne ↦ ap (λ (x : AdjHint). x.vertex_begin) (ended_other m (suc v) v h hints ne)
      ]

  pub start_hints :
      (v m : ℕ) (hints : ℕ → AdjHint)
      → 0 < m
      → lo < v
      → IsHinted g lo v m (end_hint m v hints)
      → IsHinted g lo
          (suc v)
          (m + 1)
          (end_hint (m + 1) (suc v) (end_hint m v (start_hint g v m hints)))
  start_hints v m hints pos from k = record {
    first = rw (ended_old m v (suc v) 0 hints pos pos) k.first;
    from = λ h lt. elim (cases h lt) [
      | inl e ↦ rw (e, ended_new m v (suc v) hints pos) (omega arith)
      | inr less ↦ rw (ended_old m v (suc v) h hints pos less) (k.from h less)
    ];
    next = λ h lt. elim (cases (suc h) lt) [
      | inl e ↦
          let at : h ≡ m - 1 = omega (arith, e) in
          rw
            (
              e,
              ended_new m v (suc v) hints pos,
              ended_old m v (suc v) h hints pos (omega arith),
              at,
            )
            (sym k.final)
      | inr less ↦
          rw
            (
              ended_old m v (suc v) (suc h) hints pos less,
              ended_old m v (suc v) h hints pos (omega arith),
            )
            (k.next h less)
    ];
    final = let e : m + 1 - 1 ≡ m = omega arith in rw (e, ended_new m v (suc v) hints pos) refl;
    not_empty = λ h lt. elim (cases h lt) [
      | inl e ↦ rw (e, ended_new m v (suc v) hints pos) (omega arith)
      | inr less ↦ rw (ended_old m v (suc v) h hints pos less) (k.not_empty h less)
    ];
    runs = λ h lt. elim (cases h lt) [
      | inl e ↦ rw (e, ended_new m v (suc v) hints pos) (fresh-IsRun v)
      | inr less ↦ rw (ended_old m v (suc v) h hints pos less) (k.runs h less)
    ];
  }
    where
      cases : (h : ℕ) → h < m + 1 → (h ≡ m) ⊎ (h < m)
      cases h lt = lt_suc-cases h m (omega arith)

  pub first_hint :
      (hints : ℕ → AdjHint)
      → IsHinted g lo (suc lo) 1 (end_hint 1 (suc lo) (start_hint g lo 0 hints))
  first_hint hints = record {
    first = rw (ended_first lo (suc lo) hints) refl;
    from =
        λ h lt. let e : h ≡ 0 = omega arith in rw (e, ended_first lo (suc lo) hints) (omega arith);
    next = λ h lt. absurd (omega arith);
    final = rw (ended_first lo (suc lo) hints) refl;
    not_empty =
        λ h lt. let e : h ≡ 0 = omega arith in rw (e, ended_first lo (suc lo) hints) (omega arith);
    runs = λ h lt.
        let e : h ≡ 0 = omega arith in rw (e, ended_first lo (suc lo) hints) (fresh-IsRun lo);
  }
