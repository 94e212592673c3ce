-- ===== src/MemPool/Alloc.antt =====
-- The free nodes of a pool (xutil/src/mempool.cpp) are the slots below m_stack_idx: what allocation and
-- release do to them, counted address by address.
use netpool.Base.{
  ℕ, zero, suc, ◌+◌, ◌-◌, ◌≤◌, ◌<◌, ◌≡◌, refl, sym, ap, subst, ◌∙◌, some, List, [], ◌∷◌, arith,
  length, get_elem?, set, take, length-set, count,
}
use netpool.MemPool.{
  MemPool, Allocation, block, list_head_size, slot, mpool_free_obj, mpool_malloc, mpool_free,
}

count-take-suc :
    (a i : ℕ) (xs : List ℕ) {x : ℕ}
    → get_elem? xs i ≡ some x
    → count a (take (suc i) xs) ≡ count a (take i xs) + count a (x ∷ [])
count-take-suc a i [] e = cc
count-take-suc a zero (y ∷ xs) e = ground arith
count-take-suc a (suc i) (y ∷ xs) e = omega (arith, count-take-suc a i xs e)

get_elem?-below : (xs : List ℕ) (i : ℕ) → i < length xs → (x : ℕ) × (get_elem? xs i ≡ some x)
get_elem?-below [] i h = absurd (omega arith)
get_elem?-below (x ∷ xs) zero h = (x, refl)
get_elem?-below (x ∷ xs) (suc i) h = get_elem?-below xs i (omega arith)

count-take-set :
    (a i v : ℕ) (xs : List ℕ)
    → i < length xs
    → count a (take (suc i) (set xs i v)) ≡ count a (take i xs) + count a (v ∷ [])
count-take-set a i v [] h = absurd (omega arith)
count-take-set a zero v (x ∷ xs) h = omega arith
count-take-set a (suc i) v (x ∷ xs) h = omega (arith, count-take-set a i v xs (omega arith))

-- The nodes that are free.
abbrev pub free_nodes : MemPool → List ℕ
free_nodes p = take p.stack_idx p.stack

-- What the functions of the pool keep.
pub record IsPool (p : MemPool) : Type 0 where
  pub sized : length p.stack ≡ p.node_cnt
  pub bounded : p.stack_idx ≤ p.node_cnt

-- `node` is among the free nodes of `p'` once more than among those of `p`.
pub record Released (p : MemPool) (node : ℕ) (p' : MemPool) : Type 0 where
  pub valid : IsPool p'
  pub cnt : p'.node_cnt ≡ p.node_cnt
  pub place : p'.baseaddr ≡ p.baseaddr
  pub step : p'.node_size ≡ p.node_size
  pub idx : p'.stack_idx ≡ p.stack_idx + 1
  pub items : (a : ℕ) → count a (free_nodes p') ≡ count a (free_nodes p) + count a (node ∷ [])

abbrev pushed : MemPool → ℕ → MemPool
pushed p node = record p {
  stack = set p.stack p.stack_idx node;
  stack_idx = p.stack_idx + 1;
  links = node ∷ p.links;
}

pushed-Released :
    (p : MemPool) (node : ℕ) → IsPool p → p.stack_idx < p.node_cnt → Released p node (pushed p node)
pushed-Released p node v h = record {
  valid = record { sized = length-set p.stack p.stack_idx node ∙ v.sized; bounded = omega arith };
  cnt = refl;
  place = refl;
  step = refl;
  idx = refl;
  items = λ a.
      let e : p.stack_idx + 1 ≡ suc p.stack_idx = omega arith in
      rw e (count-take-set a p.stack_idx node p.stack (omega (arith, v.sized)));
}

mpool_free_obj_room :
    (p : MemPool) (node : ℕ) → p.stack_idx < p.node_cnt → mpool_free_obj p node ≡ pushed p node
unfolding mpool_free_obj
mpool_free_obj_room p node h = ground arith

mpool_free_room :
    (p : MemPool) (node : ℕ)
    → p.stack_idx < p.node_cnt
    → mpool_free p (node + list_head_size) ≡ pushed p node
unfolding mpool_free
mpool_free_room p node h = ground arith

pub mpool_free_obj-Released :
    (p : MemPool) (node : ℕ)
    → IsPool p
    → p.stack_idx < p.node_cnt
    → Released p node (mpool_free_obj p node)
mpool_free_obj-Released p node v h =
    subst (Released p node) (sym (mpool_free_obj_room p node h)) (pushed-Released p node v h)

-- A block that is given back is its node that is released.
pub mpool_free-Released :
    (p : MemPool) (node : ℕ)
    → IsPool p
    → p.stack_idx < p.node_cnt
    → Released p node (mpool_free p (node + list_head_size))
mpool_free-Released p node v h =
    subst (Released p node) (sym (mpool_free_room p node h)) (pushed-Released p node v h)

-- An allocation from a pool with a free node gives the top one, which is then no longer free.
pub mpool_malloc_room :
    (p : MemPool)
    → IsPool p
    → 0 < p.stack_idx
    → (node : ℕ) × ((mpool_malloc p).0 ≡ block (node + list_head_size))
      × IsPool (mpool_malloc p).1
      × Released (mpool_malloc p).1 node p
unfolding mpool_malloc slot
mpool_malloc_room p v h =
    let q = record p { stack_idx = p.stack_idx - 1 } in
    let (node, e) = get_elem?-below p.stack (p.stack_idx - 1) (omega (arith, v.sized, v.bounded)) in
    let run : mpool_malloc p ≡ (block (node + list_head_size), q) = ground arith in
    (
      node,
      ap (λ t. t.0) run,
      subst (λ (t : Allocation × MemPool). IsPool t.1) (sym run)
          (record { sized = v.sized; bounded = omega (arith, v.bounded) }),
      subst (λ (t : Allocation × MemPool). Released t.1 node p) (sym run)
          (record {
            valid = v;
            cnt = refl;
            place = refl;
            step = refl;
            idx = omega arith;
            items = λ a.
                let f : p.stack_idx ≡ suc (p.stack_idx - 1) = omega arith in
                ap (λ i. count a (take i p.stack)) f ∙ count-take-suc a (p.stack_idx - 1) p.stack e;
          }),
    )
