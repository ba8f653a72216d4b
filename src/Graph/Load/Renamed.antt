-- ===== src/Graph/Load/Renamed.antt =====
-- src/core/graph.hpp, Graph::load: the edges carry the ids of their names.
use flashmob.Prelude.{
  ℕ, suc, ◌+◌, ◌≤◌, ◌<◌, ◌≡◌, ◌≢◌, inl, inr, refl, sym, ◌∙◌, subst, ap, arith, write, write_self,
  write_ne, lt_suc-cases,
}
use flashmob.Prelude.Loops.{for_range_inv, sum_below}
use flashmob.Graph.Load.{Edge, uint_max, Loading, grow, name_vertex, name_edge, name_edges}
use flashmob.Graph.Load.Names.{
  named-le, IsNaming, Extends, Extends-trans, grow-Grown, Named, name_vertex-Named,
}

module _ (m : ℕ) (m_small : m ≤ uint_max) where
  -- The name has an id, which is `id`.
  pub record HasId (s : Loading) (name id : ℕ) : Type 0 where
    pub room : name < s.size
    pub below : id < s.v_num
    pub is_id : s.name2id name ≡ id

  extend_id :
      (s t : Loading) (name id : ℕ)
      → IsNaming m m_small s
      → IsNaming m m_small t
      → Extends m m_small s t
      → HasId s name id
      → HasId t name id
  extend_id s t name id k k' x h =
      let given : s.name2id name ≢ uint_max = λ e. absurd (
        omega
          (arith, e, h.is_id, h.below, k.counted, k.size_le, named-le s.name2id s.size, m_small)) in
      let e = x.kept name h.room given in
      record {
        room = omega (arith, h.room, x.size_le);
        below = omega (
          arith,
          e,
          h.is_id,
          k'.below name (omega (arith, h.room, x.size_le)) (λ e'. given (sym e ∙ e')),
        );
        is_id = e ∙ h.is_id;
      }

  Named-HasId :
      (a : ℕ) (s t : Loading) → a < s.size → Named m m_small a s t → HasId t a (t.name2id a)
  Named-HasId a s t lt n = record {
    room = omega (arith, lt, n.extends.size_le);
    below = n.naming.below a (omega (arith, lt, n.extends.size_le)) n.has_id;
    is_id = refl;
  }

  -- The state before the renamed edge is written.
  abbrev both_named : ℕ → ℕ → Loading → Loading
  both_named a b s = name_vertex b (name_vertex a (grow b (grow a s)))

  record BothNamed (a b : ℕ) (s t : Loading) : Type 0 where
    pub naming : IsNaming m m_small t
    pub extends : Extends m m_small s t
    pub src_id : HasId t a (t.name2id a)
    pub dst_id : HasId t b (t.name2id b)

  both_named_lem :
      (a b : ℕ) (s : Loading)
      → a < m
      → b < m
      → IsNaming m m_small s
      → BothNamed a b s (both_named a b s)
  both_named_lem a b s a_lt b_lt k =
      let g = grow-Grown m m_small a s a_lt k in
      let h = grow-Grown m m_small b (grow a s) b_lt g.naming in
      let t = grow b (grow a s) in
      let n = name_vertex-Named m m_small a t (omega (arith, g.room, h.extends.size_le)) h.naming in
      let o =
        name_vertex-Named m m_small b (name_vertex a t) (omega (arith, h.room, n.extends.size_le))
          n.naming in
      let src =
        extend_id (name_vertex a t) (both_named a b s) a _ n.naming o.naming o.extends
          (Named-HasId a t (name_vertex a t) (omega (arith, g.room, h.extends.size_le)) n) in
      record {
        naming = o.naming;
        extends = Extends-trans m m_small s (grow a s) (both_named a b s) g.extends (
            Extends-trans m m_small (grow a s) t (both_named a b s) h.extends
              (Extends-trans m m_small t (name_vertex a t) (both_named a b s) n.extends o.extends));
        src_id = subst (HasId (both_named a b s) a) (sym src.is_id) src;
        dst_id =
            Named-HasId b (name_vertex a t) (both_named a b s)
              (omega (arith, h.room, n.extends.size_le)) o;
      }

  id_with_edges :
      (t : Loading) (w : ℕ → Edge) (name id : ℕ)
      → HasId t name id
      → HasId (record t { raw_edges = w }) name id
  id_with_edges t w name id h = record { room = h.room; below = h.below; is_id = h.is_id }

  with_edges :
      (t : Loading) (w : ℕ → Edge)
      → IsNaming m m_small t
      → IsNaming m m_small (record t { raw_edges = w })
  with_edges t w k = record {
    size_le = k.size_le;
    counted = k.counted;
    below = k.below;
    injective = k.injective;
    onto = k.onto;
  }

  empty-IsNaming :
      (blank : ℕ → ℕ) (orig : ℕ → Edge)
      → IsNaming m m_small (record { name2id = blank; size = 0; v_num = 0; raw_edges = orig })
  unfolding sum_below
  empty-IsNaming blank orig = record {
    size_le = omega arith;
    counted = refl;
    below = λ x lt ne. absurd (omega arith);
    injective = λ x y lt lt' ne e. absurd (omega arith);
    onto = λ i lt. absurd (omega arith);
  }

  -- After k edges: these carry ids, the others are as they were.
  pub record IsRenamed (orig : ℕ → Edge) (k : ℕ) (t : Loading) : Type 0 where
    pub naming : IsNaming m m_small t
    pub src_id : (e : ℕ) → e < k → HasId t (orig e).src (t.raw_edges e).src
    pub dst_id : (e : ℕ) → e < k → HasId t (orig e).dst (t.raw_edges e).dst
    pub rest : (e : ℕ) → k ≤ e → t.raw_edges e ≡ orig e

  name_edge-IsRenamed :
      (orig : ℕ → Edge) (k : ℕ) (s : Loading)
      → (orig k).src < m
      → (orig k).dst < m
      → IsRenamed orig k s
      → IsRenamed orig (suc k) (name_edge k s)
  unfolding name_edge
  name_edge-IsRenamed orig k s src_lt dst_lt r =
      let a = (s.raw_edges k).src in
      let b = (s.raw_edges k).dst in
      let here = r.rest k (omega arith) in
      let n =
        both_named_lem a b s (subst (λ (x : Edge). x.src < m) (sym here) src_lt)
          (subst (λ (x : Edge). x.dst < m) (sym here) dst_lt) r.naming in
      let t = both_named a b s in
      let edge : Edge = record { src = t.name2id a; dst = t.name2id b } in
      let w : ℕ → Edge = write t.raw_edges k edge in
      let old : (e : ℕ) → e ≢ k → w e ≡ s.raw_edges e =
        λ e ne. write_ne t.raw_edges k edge e ne ∙ ap (λ f. f e) n.extends.edges in
      record {
        naming = with_edges t w n.naming;
        src_id = λ e lt. elim (lt_suc-cases e k lt) [
          | inl at ↦
              rw (at, write_self)
                (subst (λ (x : Edge). HasId (record t { raw_edges = w }) x.src (t.name2id a)) here
                  (id_with_edges t w a _ n.src_id))
          | inr less ↦ rw (old e (omega arith)) (
              id_with_edges t w (orig e).src _
                (extend_id s t (orig e).src _ r.naming n.naming n.extends (r.src_id e less)))
        ];
        dst_id = λ e lt. elim (lt_suc-cases e k lt) [
          | inl at ↦
              rw (at, write_self)
                (subst (λ (x : Edge). HasId (record t { raw_edges = w }) x.dst (t.name2id b)) here
                  (id_with_edges t w b _ n.dst_id))
          | inr less ↦ rw (old e (omega arith)) (
              id_with_edges t w (orig e).dst _
                (extend_id s t (orig e).dst _ r.naming n.naming n.extends (r.dst_id e less)))
        ];
        rest = λ e le. old e (omega arith) ∙ r.rest e (omega arith);
      }

  -- For names below m, at most 2 ^ 32 - 1: after the loop each edge carries the ids of its names;
  -- each id is below v_num and given to one name, and every number below v_num is an id.
  pub name_edges-IsRenamed :
      (orig : ℕ → Edge) (edge_num : ℕ) (blank : ℕ → ℕ)
      → ((e : ℕ) → e < edge_num → ((orig e).src < m) × ((orig e).dst < m))
      → IsRenamed orig edge_num (name_edges edge_num blank orig)
  unfolding name_edges
  name_edges-IsRenamed orig edge_num blank names =
      for_range_inv (IsRenamed orig) 0 edge_num name_edge
        (record { name2id = blank; size = 0; v_num = 0; raw_edges = orig })
        (λ k t lt r.
          let e : 0 + k ≡ k = omega arith in
          rw e (name_edge-IsRenamed orig k t (names k lt).0 (names k lt).1 r))
        (record {
          naming = empty-IsNaming blank orig;
          src_id = λ e lt. absurd (omega arith);
          dst_id = λ e lt. absurd (omega arith);
          rest = λ e le. refl;
        })
