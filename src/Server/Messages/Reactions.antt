-- ===== src/Server/Messages/Reactions.antt =====
-- apps/server/src/database/repositories/message.repository.ts: the reactions to a message, as the
-- set of pairs of a sign and a user that they stand for.
use kalen.Prelude.{
  String, ◌≡◌, refl, ap, ◌∙◌, none, inl, inr, eq_iff, get_or, Bool-cases, Option-cases, Bool, true,
  false, some, List, [], ◌∷◌, ◌==◌, arith, eq_refl, if◌then◌else◌,
}
use kalen.Prelude.Dict.{Dict, lookup, lookup-insert, insert, erase, lookup-erase}
use kalen.Prelude.StringSet.{StringSet, has, add, delete}
use kalen.Prelude.SetMap.{
  set_of, add_to, remove_from, has-add_to, has-remove_from, HasNoEmpty, add_to-HasNoEmpty,
  remove_from-HasNoEmpty,
}
use kalen.Server.Messages.{Message, is_inherited, add_reaction, remove_reaction}

pub data Reaction : Type 0 where
  adds removes : (emoji user_id : String) → Reaction

unfoldable pub apply : Dict Message → String → Reaction → Dict Message
apply messages id (adds emoji user_id) = (add_reaction messages id emoji user_id).0
apply messages id (removes emoji user_id) = (remove_reaction messages id emoji user_id).0

unfoldable pub run : Dict Message → String → List Reaction → Dict Message
unfolding apply
run messages id [] = messages
run messages id (r ∷ rs) = run (apply messages id r) id rs

-- The abstract view: who has reacted how.
abbrev pub View : Type 0
View = (emoji user_id : String) → Bool

abbrev pub view : Message → View
view m emoji user_id = has user_id (set_of m.reactions emoji)

abbrev pub put : Bool → (emoji user_id : String) → View → View
put b emoji user_id v e u = if emoji == e then (if user_id == u then b else v e u) else v e u

-- a sign that every object inherits is refused
abbrev pub apply_view : Reaction → View → View
apply_view (adds emoji user_id) v = if is_inherited emoji then v else put true emoji user_id v
apply_view (removes emoji user_id) v = if is_inherited emoji then v else put false emoji user_id v

abbrev pub run_view : List Reaction → View → View
run_view [] v = v
run_view (r ∷ rs) v = run_view rs (apply_view r v)

-- A message of the table with the reactions of a view, none of them an empty list, and none under a
-- name that every object inherits.
pub record Shows (messages : Dict Message) (id : String) (v : View) : Type 0 where
  pub message : Message
  pub stored : lookup id messages ≡ some message
  pub agrees : (e u : String) → view message e u ≡ v e u
  pub clean : HasNoEmpty message.reactions
  pub own : (k : String) → is_inherited k ≡ true → lookup k message.reactions ≡ none

lookup-add_to :
    (r : Dict StringSet) (e u k : String) → e == k ≡ false → lookup k (add_to r e u) ≡ lookup k r
unfolding add_to
lookup-add_to r e u k other = elim (Option-cases (lookup e r)) [
  | inl gone ↦ ground (
    arith,
    gone,
    lookup-insert e k [] r,
    lookup-insert e k (add u (get_or (lookup e (insert e [] r)) [])) (insert e [] r),
  )
  | inr (s, there) ↦ ground (arith, there, lookup-insert e k (add u s) r)
]

lookup-remove_from :
    (r : Dict StringSet) (e u k : String)
    → e == k ≡ false
    → lookup k (remove_from r e u) ≡ lookup k r
unfolding remove_from
lookup-remove_from r e u k other = elim (Option-cases (lookup e r)) [
  | inl gone ↦ rw (gone, remove_from) refl
  | inr (s, there) ↦ rw (there, remove_from) (left (delete u s))
]
  where
    left :
        (t : StringSet)
        → lookup k (elim t [ [] ↦ erase e r | y ∷ ys ↦ insert e (y ∷ ys) r ]) ≡ lookup k r
    left [] = ground (arith, lookup-erase e k r)
    left (y ∷ ys) = ground (arith, lookup-insert e k (y ∷ ys) r)

-- a message with new reactions, in its place
stored_again :
    (messages : Dict Message) (id : String) (m : Message)
    → lookup id (insert id m messages) ≡ some m
stored_again messages id m = ground (arith, eq_refl id, lookup-insert id id m messages)

not_inherited : (e k : String) → is_inherited e ≡ false → is_inherited k ≡ true → e == k ≡ false
not_inherited e k plain inherited = elim (Bool-cases (e == k)) [
  | inl same ↦ cc (ap is_inherited ((eq_iff e k).0 same), plain, inherited)
  | inr other ↦ other
]

apply-Shows :
    (messages : Dict Message) (id : String) (v : View) (r : Reaction)
    → Shows messages id v
    → Shows (apply messages id r) id (apply_view r v)
unfolding apply add_reaction remove_reaction
apply-Shows messages id v (adds emoji user_id) s = elim (Bool-cases (is_inherited emoji)) [
  | inl inherited ↦ rw (s.stored, apply) (rw inherited (rw (s.own emoji inherited) s))
  | inr plain ↦
      rw (s.stored, apply)
        (rw plain (record {
          message = record s.message { reactions = add_to s.message.reactions emoji user_id };
          stored = stored_again messages id _;
          agrees =
              λ e u. ground (arith, has-add_to s.message.reactions emoji user_id e u, s.agrees e u);
          clean = add_to-HasNoEmpty s.message.reactions emoji user_id s.clean;
          own = λ k h.
              lookup-add_to s.message.reactions emoji user_id k (not_inherited emoji k plain h)
              ∙ s.own k h;
        }))
]
apply-Shows messages id v (removes emoji user_id) s = elim (Bool-cases (is_inherited emoji)) [
  | inl inherited ↦ rw (s.stored, apply) (rw inherited (rw (s.own emoji inherited) s))
  | inr plain ↦
      rw (s.stored, apply)
        (rw plain (record {
          message = record s.message { reactions = remove_from s.message.reactions emoji user_id };
          stored = stored_again messages id _;
          agrees = λ e u.
              ground (arith, has-remove_from s.message.reactions emoji user_id e u, s.agrees e u);
          clean = remove_from-HasNoEmpty s.message.reactions emoji user_id s.clean;
          own = λ k h.
              lookup-remove_from s.message.reactions emoji user_id k (not_inherited emoji k plain h)
              ∙ s.own k h;
        }))
]

-- For a stored message whose reactions have no sign without users and none that is a name which
-- every object inherits: reactions that are added and removed, in any order, are what the set of
-- pairs of a sign and a user says, of those that were there, to which they are added and from
-- which they are removed in that order, but that a sign which every object inherits changes
-- nothing. It stays true that no sign is without users and that none is inherited.
pub run-Shows :
    (messages : Dict Message) (id : String) (v : View) (rs : List Reaction)
    → Shows messages id v
    → Shows (run messages id rs) id (run_view rs v)
unfolding run
run-Shows messages id v [] s = s
run-Shows messages id v (r ∷ rs) s =
    run-Shows (apply messages id r) id (apply_view r v) rs (apply-Shows messages id v r s)
