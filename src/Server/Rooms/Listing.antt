-- ===== src/Server/Rooms/Listing.antt =====
-- apps/server/src/messaging/room.service.ts: the rooms of a user.
use kalen.Prelude.{
  take, drop, ℕ, zero, suc, ◌-◌, ◌*◌, String, ◌≡◌, subst, Bool, true, ◌&&◌, Option, none, some,
  List, [], ◌∷◌, inl, inr, arith, eqb, map, filter, All, Bool-cases, Option-cases,
}
use kalen.Prelude.Dict.{values}
use kalen.Server.Pages.{page_number, page_limit, cut, Pagination}
use kalen.Server.RoomTables.{Room, Tables, is_member}
use kalen.Server.Rooms.{RoomView, format_room, rooms_of, list_rooms, is_active, of_kind}

module _ {ℓ κ} {A : Type ℓ} (P : A → Type κ) where
  All-take : (n : ℕ) (xs : List A) → All P xs → All P (take n xs)
  All-take zero xs h = tt
  All-take (suc n) [] h = tt
  All-take (suc n) (x ∷ xs) h = (h.0, All-take n xs h.1)

  All-drop : (n : ℕ) (xs : List A) → All P xs → All P (drop n xs)
  All-drop zero xs h = h
  All-drop (suc n) [] h = tt
  All-drop (suc n) (x ∷ xs) h = All-drop n xs h.1

  All-cut : (page limit : ℕ) (xs ys : List A) → cut page limit xs ≡ some ys → All P xs → All P ys
  unfolding cut
  All-cut page limit xs ys e h = elim (Bool-cases (eqb page 0)) [
    | inl z ↦ absurd (ground (arith, z, e))
    | inr z ↦
        let same : take limit (drop ((page - 1) * limit) xs) ≡ ys = ground (arith, z, e) in
        subst (All P) same
          (All-take limit (drop ((page - 1) * limit) xs) (All-drop ((page - 1) * limit) xs h))
  ]

All-filter {ℓ κ} :
    {A : Type ℓ} (P : A → Type κ) (q : A → Bool) (xs : List A)
    → All P xs
    → All (λ x. P x × (q x ≡ true)) (filter q xs)
All-filter P q [] h = tt
All-filter P q (x ∷ xs) h = elim (Bool-cases (q x)) [
  | inl e ↦ rw e ((h.0, e), All-filter P q xs h.1)
  | inr e ↦ rw e (All-filter P q xs h.1)
]

All-map {ℓ κ μ ν} :
    {A : Type ℓ} {B : Type κ} (P : A → Type μ) (Q : B → Type ν) (f : A → B)
    → ((x : A) → P x → Q (f x))
    → (xs : List A) → All P xs
    → All Q (map f xs)
All-map P Q f keep [] h = tt
All-map P Q f keep (x ∷ xs) h = (keep x h.0, All-map P Q f keep xs h.1)

-- The order of the database moves rows and makes up none.
abbrev pub Reorders : (List Room → List Room) → Type 1
Reorders order = (P : Room → Type 0) (rs : List Room) → All P rs → All P (order rs)

-- a room that the query finds, of those that `createRoom` stores
abbrev Found : Tables → String → Option String → Room → Type 0
Found t user_id kind r =
    (r.legacy ≡ []) × ((is_member t r.id user_id && (is_active r.status && of_kind kind r)) ≡ true)

-- Where the rooms have no members in their old column, as the rooms that the service creates:
-- every room that is listed for a user is one of the user's and is shown with no members at all.
pub list_rooms_shows :
    (order : List Room → List Room) (t : Tables) (user_id : String) (kind : Option String)
    (page limit : Option ℕ) (views : List RoomView) (p : Pagination)
    → Reorders order
    → All (λ r. r.legacy ≡ []) (values t.rooms)
    → list_rooms order t user_id kind page limit ≡ some (views, p)
    → All (λ v. (is_member t v.id user_id ≡ true) × (v.members ≡ [])) views
unfolding list_rooms rooms_of format_room
list_rooms_shows order t user_id kind page limit views p moves fresh h =
    elim (Option-cases
      (cut (page_number page) (page_limit limit) (order (rooms_of t user_id kind)))) [
        | inl e ↦ absurd (ground (arith, e, h))
        | inr (rs, e) ↦
            let found =
              All-cut (Found t user_id kind) (page_number page) (page_limit limit) _ rs e (
                moves (Found t user_id kind) _
                  (All-filter (λ r. r.legacy ≡ []) _ (values t.rooms) fresh)) in
            let same : map (λ r. format_room r none) rs ≡ views = ground (arith, e, h) in
            subst (All (λ v. (is_member t v.id user_id ≡ true) × (v.members ≡ []))) same (
              All-map (Found t user_id kind) _ (λ r. format_room r none)
                (λ r f. (ground (arith, f.1), f.0)) rs found)
      ]
