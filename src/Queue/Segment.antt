-- ===== src/Queue/Segment.antt =====
-- Linked entries in the heap, and the list that they stand for.
use mcoap.Base.{
  ◌≡◌, ◌≢◌, refl, sym, ap, ◌∙◌, Option, some, List, [], ◌∷◌, ◌++◌, arith, All, All-append,
  All-split,
}
use mcoap.Queue.{Ptr, null, Body, Entry, update}

-- Address and content of each entry, in order.
abbrev pub Cells : Type 0
Cells = List (Ptr × Body)

abbrev pub Heap : Type 0
Heap = Ptr → Option Entry

-- The address of the first entry; `next` if there is none.
abbrev pub first_of : Cells → Ptr → Ptr
first_of [] next = next
first_of ((p, b) ∷ xs) next = p

abbrev pub last_of : Ptr → Cells → Ptr
last_of prev [] = prev
last_of prev ((p, b) ∷ xs) = last_of p xs

abbrev pub entry_of : Body → Ptr → Ptr → Entry
entry_of body prev next = record { body = body; prev = prev; next = next }

-- The entries are linked both ways, with `prev` before the first and `next` behind the last.
abbrev pub IsSegment : Heap → Ptr → Ptr → Cells → Type 0
IsSegment cell prev next [] = Unit {0}
IsSegment cell prev next ((p, b) ∷ xs) =
    (p ≢ null) × (cell p ≡ some (entry_of b prev (first_of xs next))) × IsSegment cell p next xs

-- No entry is at the address.
abbrev pub IsApart : Ptr → Cells → Type 0
IsApart a xs = All (λ x. x.0 ≢ a) xs

abbrev pub AllApart : Cells → Cells → Type 0
AllApart xs ys = All (λ x. IsApart x.0 ys) xs

abbrev pub AreDistinct : Cells → Type 0
AreDistinct [] = Unit {0}
AreDistinct ((p, b) ∷ xs) = IsApart p xs × AreDistinct xs

pub frame :
    (cell : Heap) (a : Ptr) (c : Option Entry) (prev next : Ptr) (xs : Cells)
    → IsApart a xs
    → IsSegment cell prev next xs
    → IsSegment (update cell a c) prev next xs
frame cell a c prev next [] apart s = tt
frame cell a c prev next ((p, b) ∷ xs) apart s =
    (s.0, ground (arith, s.1, apart.0), frame cell a c p next xs apart.1 s.2)

pub first_of-append :
    (xs ys : Cells) (next : Ptr) → first_of (xs ++ ys) next ≡ first_of xs (first_of ys next)
first_of-append [] ys next = refl
first_of-append ((p, b) ∷ xs) ys next = refl

pub last_of-append :
    (prev : Ptr) (xs ys : Cells) → last_of prev (xs ++ ys) ≡ last_of (last_of prev xs) ys
last_of-append prev [] ys = refl
last_of-append prev ((p, b) ∷ xs) ys = last_of-append p xs ys

pub split :
    (cell : Heap) (prev next : Ptr) (xs ys : Cells)
    → IsSegment cell prev next (xs ++ ys)
    → IsSegment cell prev (first_of ys next) xs × IsSegment cell (last_of prev xs) next ys
split cell prev next [] ys s = (tt, s)
split cell prev next ((p, b) ∷ xs) ys s =
    let (front, back) = split cell p next xs ys s.2 in
    ((s.0, s.1 ∙ ap (λ n. some (entry_of b prev n)) (first_of-append xs ys next), front), back)

pub join :
    (cell : Heap) (prev next : Ptr) (xs ys : Cells)
    → IsSegment cell prev (first_of ys next) xs
    → IsSegment cell (last_of prev xs) next ys
    → IsSegment cell prev next (xs ++ ys)
join cell prev next [] ys front back = back
join cell prev next ((p, b) ∷ xs) ys front back = (
  front.0,
  front.1 ∙ ap (λ n. some (entry_of b prev n)) (sym (first_of-append xs ys next)),
  join cell p next xs ys front.2 back,
)

pub AreDistinct-split :
    (xs ys : Cells) → AreDistinct (xs ++ ys) → AreDistinct xs × AreDistinct ys × AllApart xs ys
AreDistinct-split [] ys d = (tt, d, tt)
AreDistinct-split ((p, b) ∷ xs) ys d =
    let (dx, dy, apart) = AreDistinct-split xs ys d.1 in
    let (here, there) = All-split (λ x. x.0 ≢ p) xs ys d.0 in ((here, dx), dy, (there, apart))

pub AreDistinct-join :
    (xs ys : Cells) → AreDistinct xs → AreDistinct ys → AllApart xs ys → AreDistinct (xs ++ ys)
AreDistinct-join [] ys dx dy apart = dy
AreDistinct-join ((p, b) ∷ xs) ys dx dy apart =
    (All-append (λ x. x.0 ≢ p) xs ys dx.0 apart.0, AreDistinct-join xs ys dx.1 dy apart.1)

-- Apart is symmetric.
pub IsApart-front : (xs ys : Cells) (q : Ptr) (b : Body) → AllApart xs ((q, b) ∷ ys) → IsApart q xs
IsApart-front [] ys q b apart = tt
IsApart-front ((p, c) ∷ xs) ys q b apart = (λ e. apart.0.0 (sym e), IsApart-front xs ys q b apart.1)

pub AllApart-tail :
    (xs ys : Cells) (q : Ptr) (b : Body) → AllApart xs ((q, b) ∷ ys) → AllApart xs ys
AllApart-tail [] ys q b apart = tt
AllApart-tail (x ∷ xs) ys q b apart = (apart.0.1, AllApart-tail xs ys q b apart.1)

pub last_of-IsApart :
    (p : Ptr) (b : Body) (xs ys : Cells) → AllApart ((p, b) ∷ xs) ys → IsApart (last_of p xs) ys
last_of-IsApart p b [] ys apart = apart.0
last_of-IsApart p b ((q, c) ∷ xs) ys apart = last_of-IsApart q c xs ys apart.1

pub AllApart-one : (a : Ptr) (b : Body) (xs : Cells) → IsApart a xs → AllApart xs ((a, b) ∷ [])
AllApart-one a b [] apart = tt
AllApart-one a b (x ∷ xs) apart = ((λ e. apart.0 (sym e), tt), AllApart-one a b xs apart.1)
