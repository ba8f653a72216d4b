-- ===== src/Graph/Load/Names.antt =====
-- src/core/graph.hpp, Graph::load: each name gets an id of its own, and the ids leave no gap.
use flashmob.Prelude.{
  ℕ, zero, suc, ◌+◌, ◌-◌, ◌%◌, ◌^◌, ◌≤◌, ◌<◌, ◌≡◌, ◌≢◌, inl, inr, refl, sym, ◌∙◌, subst, arith,
  ◌==◌, true, false, if◌then◌else◌, write, write_self, write_ne, lt_suc-cases,
}
use flashmob.Prelude.Loops.{for_range_inv, sum_below}
use native.Mathlib.Decide.{ℕ_discrete}
use flashmob.Prelude.Words.{add32}
use flashmob.Graph.Load.{uint_max, Loading, push_back, grow, name_vertex}

-- How many of the first n names have an id.
abbrev pub named : (ℕ → ℕ) → ℕ → ℕ
named name2id n = sum_below (λ x. if name2id x == uint_max then 0 else 1) n

pub named-le : (f : ℕ → ℕ) (n : ℕ) → named f n ≤ n
unfolding sum_below
named-le f zero = omega arith
named-le f (suc n) = ground (arith, named-le f n)

named-past : (f : ℕ → ℕ) (n x v : ℕ) → n ≤ x → named (write f x v) n ≡ named f n
unfolding sum_below write
named-past f zero x v h = refl
named-past f (suc n) x v h = ground (arith, named-past f n x v)

named-write :
    (f : ℕ → ℕ) (n x v : ℕ)
    → x < n
    → f x ≡ uint_max
    → v ≢ uint_max
    → named (write f x v) n ≡ named f n + 1
unfolding sum_below write
named-write f zero x v h e ne = absurd (omega arith)
named-write f (suc n) x v h e ne = ground (arith, named-past f n x v, named-write f n x v)

named_grow : (f : ℕ → ℕ) (n : ℕ) → named (write f n uint_max) (n + 1) ≡ named f n
unfolding sum_below write
named_grow f n =
    let e : n + 1 ≡ suc n = omega arith in rw e (ground (arith, named-past f n n uint_max))

module _ (m : ℕ) (m_small : m ≤ uint_max) where
  -- The ids 0, …, v_num - 1 are given to one name below the size each.
  pub record IsNaming (s : Loading) : Type 0 where
    pub size_le : s.size ≤ m
    pub counted : s.v_num ≡ named s.name2id s.size
    pub below : (x : ℕ) → x < s.size → s.name2id x ≢ uint_max → s.name2id x < s.v_num
    pub injective :
        (x y : ℕ)
        → x < s.size
        → y < s.size
        → s.name2id x ≢ uint_max
        → s.name2id x ≡ s.name2id y
        → x ≡ y
    pub onto : (i : ℕ) → i < s.v_num → (x : ℕ) × (x < s.size) × (s.name2id x ≡ i)

  -- Ids once given stay.
  pub record Extends (s t : Loading) : Type 0 where
    pub size_le : s.size ≤ t.size
    pub kept : (x : ℕ) → x < s.size → s.name2id x ≢ uint_max → t.name2id x ≡ s.name2id x
    pub edges : t.raw_edges ≡ s.raw_edges

  push_back-IsNaming :
      (s : Loading) → s.size < m → IsNaming s → IsNaming (push_back s) × Extends s (push_back s)
  unfolding push_back
  push_back-IsNaming s lt k = (
    record {
      size_le = omega arith;
      counted = k.counted ∙ sym (named_grow s.name2id s.size);
      below = λ x h ne. ground (
        arith,
        k.below x,
        write_self s.name2id s.size uint_max,
        write_ne s.name2id s.size uint_max x,
      );
      injective = λ x y h h' ne e. ground (
        arith,
        k.injective x y,
        write_self s.name2id s.size uint_max,
        write_ne s.name2id s.size uint_max x,
        write_ne s.name2id s.size uint_max y,
      );
      onto = λ i h.
          let (x, lt', e) = k.onto i h in
          (
            x,
            omega arith,
            write_ne s.name2id s.size uint_max x (λ e'. absurd (omega (arith, e'))) ∙ e,
          );
    },
    record {
      size_le = omega arith;
      kept = λ x h ne. write_ne s.name2id s.size uint_max x (λ e'. absurd (omega (arith, e')));
      edges = refl;
    },
  )

  push_back-size : (s : Loading) → (push_back s).size ≡ s.size + 1
  unfolding push_back
  push_back-size s = refl

  pub Extends-refl : (s : Loading) → Extends s s
  Extends-refl s = record { size_le = omega arith; kept = λ x h ne. refl; edges = refl }

  pub Extends-trans : (s t u : Loading) → Extends s t → Extends t u → Extends s u
  Extends-trans s t u h k = record {
    size_le = omega (arith, h.size_le, k.size_le);
    kept = λ x lt ne.
        let e = h.kept x lt ne in k.kept x (omega (arith, h.size_le)) (λ e'. ne (sym e ∙ e')) ∙ e;
    edges = k.edges ∙ h.edges;
  }

  -- What growing for the name `a` leaves.
  pub record Grown (a : ℕ) (s t : Loading) : Type 0 where
    pub naming : IsNaming t
    pub extends : Extends s t
    pub room : a < t.size

  pub grow-Grown : (a : ℕ) (s : Loading) → a < m → IsNaming s → Grown a s (grow a s)
  unfolding grow
  grow-Grown a s lt k =
      let end =
        for_range_inv (λ n t. IsNaming t × Extends s t × (t.size ≡ s.size + n)) s.size
          (a + 1 - s.size) (λ size. push_back) s
          (λ n t h (naming, extends, size).
            let (next, step) = push_back-IsNaming t (omega (arith, size)) naming in
            (
              next,
              Extends-trans s t (push_back t) extends step,
              push_back-size t ∙ omega (arith, size),
            ))
          (k, Extends-refl s, omega arith) in
      record { naming = end.0; extends = end.1; room = omega (arith, end.2) }

  -- What naming `a` leaves.
  pub record Named (a : ℕ) (s t : Loading) : Type 0 where
    pub naming : IsNaming t
    pub extends : Extends s t
    pub has_id : t.name2id a ≢ uint_max

  fresh_id : (a : ℕ) (s : Loading) → a < s.size → IsNaming s → s.name2id a ≡ uint_max → s.v_num < m
  fresh_id a s lt k e = omega (
    arith,
    k.counted,
    k.size_le,
    named-le (write s.name2id a 0) s.size,
    named-write s.name2id s.size a 0 lt e (λ e'. absurd (omega (arith, e'))),
  )

  pub name_vertex-Named :
      (a : ℕ) (s : Loading) → a < s.size → IsNaming s → Named a s (name_vertex a s)
  unfolding name_vertex add32
  name_vertex-Named a s lt k = elim (ℕ_discrete (s.name2id a) uint_max) [
    | no ne ↦
        let old : (s.name2id a == uint_max) ≡ false = ground arith in
        rw old (record { naming = k; extends = Extends-refl s; has_id = ne })
    | yes e ↦
        let new : (s.name2id a == uint_max) ≡ true = ground arith in
        let room = fresh_id a s lt k e in
        let next : (s.v_num + 1) % 2 ^ 32 ≡ s.v_num + 1 = omega (arith, m_small) in
        rw (new, next)
          (record {
            naming = record {
              size_le = k.size_le;
              counted = omega (
                arith,
                k.counted,
                named-write s.name2id s.size a s.v_num lt e
                    (λ e'. absurd (omega (arith, e', m_small))),
              );
              below = λ x h ne. ground (
                arith,
                k.below x,
                write_self s.name2id a s.v_num,
                write_ne s.name2id a s.v_num x,
              );
              injective = λ x y h h' ne e'. ground (
                arith,
                k.injective x y h h',
                k.below x h,
                k.below y h',
                m_small,
                write_self s.name2id a s.v_num,
                write_ne s.name2id a s.v_num x,
                write_ne s.name2id a s.v_num y,
              );
              onto = λ i h. elim (lt_suc-cases i s.v_num (omega arith)) [
                | inl at ↦ (a, lt, write_self s.name2id a s.v_num ∙ sym at)
                | inr less ↦
                    let (x, lt', e') = k.onto i less in
                    (
                      x,
                      lt',
                      write_ne s.name2id a s.v_num x (λ at.
                            absurd (omega (arith, subst (λ z. s.name2id z ≡ i) at e', e, m_small)))
                          ∙ e',
                    )
              ];
            };
            extends = record {
              size_le = omega arith;
              kept = λ x h ne.
                  write_ne s.name2id a s.v_num x
                    (λ at. ne (subst (λ z. s.name2id z ≡ uint_max) (sym at) e));
              edges = refl;
            };
            has_id =
                λ e'. absurd (omega (arith, sym (write_self s.name2id a s.v_num) ∙ e', m_small));
          })
  ]
