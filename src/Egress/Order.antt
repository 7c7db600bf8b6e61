-- ===== src/Egress/Order.antt =====
-- The order of a pipeline's inputs is a stable sort.
use zvonok.Prelude.{
  ℕ, String, ◌≤◌, ◌<◌, ◌≡◌, refl, Bool, true, false, ◌⊎◌, inl, inr, List, [], ◌∷◌, ◌++◌, arith,
  Bool-cases,
}
use zvonok.Media.State.{Kind, audio, video, Source, camera, screen, other}
use zvonok.Media.Consumers.{RoomTapDescriptor}
use zvonok.Egress.Inputs.{
  is_audio, is_screen_video, is_camera_video, filter, sorted_inputs, rank, insert, sort_by_rank,
}

abbrev Ranked : ℕ → List RoomTapDescriptor → Type 0
Ranked n [] = Unit
Ranked n (x ∷ xs) = (rank x ≡ n) × Ranked n xs

-- The three tests and the rank of an input.
abbrev IsClass : RoomTapDescriptor → Bool → Bool → Bool → ℕ → Type 0
IsClass d a s c n =
    (is_audio d ≡ a) × (is_screen_video d ≡ s) × (is_camera_video d ≡ c) × (rank d ≡ n)

abbrev tap : String → Kind → Source → RoomTapDescriptor
tap id k s = record { producer_id = id; kind = k; source = s }

abbrev Classes : RoomTapDescriptor → Type 0
Classes d =
    IsClass d true false false 0
    ⊎ (IsClass d false true false 1
        ⊎ (IsClass d false false true 2 ⊎ IsClass d false false false 3))

class_of : (id : String) (k : Kind) (s : Source) → Classes (tap id k s)
unfolding is_audio is_screen_video is_camera_video rank
class_of id audio s = inl (refl, refl, refl, refl)
class_of id video screen = inr (inl (refl, refl, refl, refl))
class_of id video camera = inr (inr (inl (refl, refl, refl, refl)))
class_of id video (other s) = inr (inr (inr (refl, refl, refl, refl)))

classes : (d : RoomTapDescriptor) → Classes d
classes d = class_of d.producer_id d.kind d.source

filter-Ranked :
    (f : RoomTapDescriptor → Bool) (n : ℕ) (ds : List RoomTapDescriptor)
    → ((d : RoomTapDescriptor) → f d ≡ true → rank d ≡ n)
    → Ranked n (filter f ds)
unfolding filter
filter-Ranked f n [] h = tt
filter-Ranked f n (d ∷ ds) h = elim (Bool-cases (f d)) [
  | inl e ↦ rw e (h d e, filter-Ranked f n ds h)
  | inr e ↦ rw e (filter-Ranked f n ds h)
]

insert_past :
    (d : RoomTapDescriptor) (n : ℕ) (xs ys : List RoomTapDescriptor)
    → n < rank d
    → Ranked n xs
    → insert d (xs ++ ys) ≡ xs ++ insert d ys
unfolding insert
insert_past d n [] ys h r = refl
insert_past d n (x ∷ xs) ys h r = ground (arith, h, r.0, insert_past d n xs ys h r.1)

insert_before :
    (d : RoomTapDescriptor) (n : ℕ) (xs : List RoomTapDescriptor)
    → rank d ≤ n
    → Ranked n xs
    → insert d xs ≡ d ∷ xs
unfolding insert
insert_before d n [] h r = refl
insert_before d n (x ∷ xs) h r = ground (arith, h, r.0)

insert_first :
    (d : RoomTapDescriptor) (xs : List RoomTapDescriptor) → rank d ≡ 0 → insert d xs ≡ d ∷ xs
unfolding insert
insert_first d [] n = refl
insert_first d (x ∷ xs) n = ground (arith, n)

insert_at :
    (d : RoomTapDescriptor) (m n : ℕ) (xs ys : List RoomTapDescriptor)
    → rank d ≤ m
    → rank d ≤ n
    → Ranked m xs
    → Ranked n ys
    → insert d (xs ++ ys) ≡ d ∷ (xs ++ ys)
unfolding insert
insert_at d m n [] ys h k r q = insert_before d n ys k q
insert_at d m n (x ∷ xs) ys h k r q = ground (arith, h, r.0)

-- The order of the inputs is the stable sort by rank: audio, screens, cameras, each as they came, and
-- videos of another source left out.
pub sorted_inputs_stable : (ds : List RoomTapDescriptor) → sorted_inputs ds ≡ sort_by_rank ds
unfolding sorted_inputs sort_by_rank filter
sorted_inputs_stable [] = refl
sorted_inputs_stable (d ∷ ds) =
    let ih = sorted_inputs_stable ds in
    let a = filter is_audio ds in
    let s = filter is_screen_video ds in
    let c = filter is_camera_video ds in
    let ra = filter-Ranked is_audio 0 ds (λ x h. ground (arith, h, classes x)) in
    let rs = filter-Ranked is_screen_video 1 ds (λ x h. ground (arith, h, classes x)) in
    let rc = filter-Ranked is_camera_video 2 ds (λ x h. ground (arith, h, classes x)) in
    elim (classes d) [
      | inl (p, q, r, n) ↦ ground (arith, p, q, r, n, ih, insert_first d (a ++ (s ++ c)) n)
      | inr (inl (p, q, r, n)) ↦ ground (
        arith,
        p,
        q,
        r,
        n,
        ih,
        insert_past d 0 a (s ++ c) (omega (arith, n)) ra,
        insert_at d 1 2 s c (omega (arith, n)) (omega (arith, n)) rs rc,
      )
      | inr (inr (inl (p, q, r, n))) ↦ ground (
        arith,
        p,
        q,
        r,
        n,
        ih,
        insert_past d 0 a (s ++ c) (omega (arith, n)) ra,
        insert_past d 1 s c (omega (arith, n)) rs,
        insert_before d 2 c (omega (arith, n)) rc,
      )
      | inr (inr (inr (p, q, r, n))) ↦ ground (arith, p, q, r, n, ih)
    ]
