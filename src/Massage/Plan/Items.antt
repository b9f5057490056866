-- ===== src/Massage/Plan/Items.antt =====
-- What the objects of a file system add to the work (src/engine/massage.cpp).
use mathlib.Core.List.{append-nil, append_assoc}
use reflash.Base.{
  ℕ, ◌+◌, ◌%◌, ◌≡◌, refl, ap, ◌∙◌, sym, true, false, List, [], ◌∷◌, ◌++◌, ◌==◌, if◌then◌else◌,
  arith, Text, u64_mod,
}
use reflash.Fs.{FsFileExtent, FsObject}
use reflash.Massage.{WorkItem, work_item}
use reflash.Massage.Plan.{Plan, push_work, push_extents, push_objects}

-- The extents of an object that are not empty.
items_of : Text → List FsFileExtent → List WorkItem
items_of path [] = []
items_of path (e ∷ es) =
    let rest = items_of path es in
    if e.length == 0 then rest else work_item path e.offset e.length ∷ rest

pub all_items : List FsObject → List WorkItem
all_items [] = []
all_items (o ∷ os) = items_of o.path o.extents ++ all_items os

pub all_records : List FsObject → List (Text × ℕ)
all_records [] = []
all_records (o ∷ os) = (o.path, o.size) ∷ all_records os

-- The bytes of a list of work.
work_bytes : List WorkItem → ℕ
work_bytes [] = 0
work_bytes (w ∷ ws) = w.length + work_bytes ws

-- `p1` is the plan `p` with more work and more records after it.
pub Adds : List WorkItem → List (Text × ℕ) → Plan → Plan → Type 0
Adds items records p p1 =
    (p1.work ≡ p.work ++ items)
    × ((p1.total % u64_mod ≡ (p.total + work_bytes items) % u64_mod)
        × (p1.records ≡ p.records ++ records))

work_bytes-append : (xs ys : List WorkItem) → work_bytes (xs ++ ys) ≡ work_bytes xs + work_bytes ys
unfolding work_bytes
work_bytes-append [] ys = omega arith
work_bytes-append (x ∷ xs) ys = omega (arith, work_bytes-append xs ys)

Adds-none : (p : Plan) → Adds [] [] p p
unfolding Adds work_bytes
Adds-none p =
    (sym (append-nil p.work), (ap (λ n. n % u64_mod) (omega arith), sym (append-nil p.records)))

Adds-append :
    (xs ys : List WorkItem) (rs ss : List (Text × ℕ)) (p p1 p2 : Plan)
    → Adds xs rs p p1
    → Adds ys ss p1 p2
    → Adds (xs ++ ys) (rs ++ ss) p p2
unfolding Adds
Adds-append xs ys rs ss p p1 p2 (work, (total, records)) (work2, (total2, records2)) = (
  work2 ∙ ap (λ l. l ++ ys) work ∙ append_assoc p.work xs ys,
  (
    omega (arith, total, total2, work_bytes-append xs ys),
    records2 ∙ ap (λ l. l ++ ss) records ∙ append_assoc p.records rs ss,
  ),
)

push_work-Adds :
    (path : Text) (offset len : ℕ) (p : Plan)
    → Adds (work_item path offset len ∷ []) [] p (push_work path offset len p)
unfolding Adds push_work work_bytes
push_work-Adds path offset len p = (refl, (omega arith, sym (append-nil p.records)))

push_extents-Adds :
    (path : Text) (es : List FsFileExtent) (p : Plan)
    → Adds (items_of path es) [] p (push_extents path es p)
unfolding push_extents items_of
push_extents-Adds path [] p = Adds-none p
push_extents-Adds path (e ∷ es) p =
    elim (e.length == 0)
      as (λ b.
        Adds (if b then items_of path es else work_item path e.offset e.length ∷ items_of path es)
          [] p (push_extents path es (if b then p else push_work path e.offset e.length p))) [
            | true ↦ push_extents-Adds path es p
            | false ↦
                Adds-append (work_item path e.offset e.length ∷ []) (items_of path es) [] [] p
                  (push_work path e.offset e.length p) _ (push_work-Adds path e.offset e.length p)
                  (push_extents-Adds path es (push_work path e.offset e.length p))
          ]

record-Adds :
    (r : Text × ℕ) (p : Plan) → Adds [] (r ∷ []) p (record p { records = p.records ++ r ∷ [] })
unfolding Adds work_bytes
record-Adds r p = (sym (append-nil p.work), (ap (λ n. n % u64_mod) (omega arith), refl))

-- The objects of a scan add to the plan exactly: one item of work for each of their extents that is
-- not empty, in order, under the path of the object; the bytes of these items, modulo 2^64; and one
-- record for each object.
pub push_objects-Adds :
    (os : List FsObject) (p : Plan) → Adds (all_items os) (all_records os) p (push_objects os p)
unfolding push_objects all_items all_records
push_objects-Adds [] p = Adds-none p
push_objects-Adds (o ∷ os) p =
    let noted : Plan = record p { records = p.records ++ (o.path, o.size) ∷ [] } in
    let first =
      Adds-append [] (items_of o.path o.extents) ((o.path, o.size) ∷ []) [] p noted
        (push_extents o.path o.extents noted) (record-Adds (o.path, o.size) p)
        (push_extents-Adds o.path o.extents noted) in
    Adds-append (items_of o.path o.extents) (all_items os) ((o.path, o.size) ∷ []) (all_records os)
      p _ _ first (push_objects-Adds os _)
