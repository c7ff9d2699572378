-- ===== src/Macros/Expand/Readable.antt =====
-- A reader of quoted items that stands in for the library `syn`, for the tests of edfsm-macros.
use Prim.Native.String.{String}
use edfsm.Prelude.{◌≡◌, refl, ◌↔◌, Bool, true, false, ◌&&◌, Option, none, some, List, [], ◌∷◌, All}
use edfsm.Macros.Syntax.{Segment, Ty, infer, path, other}
use edfsm.Macros.Expand.{ChangeArm, ImplItem}
use edfsm.Macros.Expand.Landing.{IsPresent, IsStated}
use edfsm.Macros.Expand.Reading.{IsEnum, Reads}

abbrev negated : Bool → Bool
negated true = false
negated false = true

abbrev plain_segments : List Segment → Bool
plain_segments [] = true
plain_segments (s ∷ l) = negated s.has_arguments && plain_segments l

abbrev is_enum : Ty → Bool
is_enum (path (s ∷ l)) = plain_segments (s ∷ l)
is_enum _ = false

abbrev stated : Option String → Bool
stated none = false
stated (some s) = true

abbrev all_stated : List ChangeArm → Bool
all_stated [] = true
all_stated (a ∷ l) = stated a.state && all_stated l

abbrev pub readable : ImplItem → Bool
readable (ImplItem.associated_type name t) = true
readable (ImplItem.for_command_fn s c h e arms) = is_enum s && is_enum c && is_enum e
readable (ImplItem.on_event_fn s e arms) = is_enum s && is_enum e
readable (ImplItem.on_change_fn s e h entries arms) = is_enum s && is_enum e && all_stated arms

plain_segments-All :
    (l : List Segment) → All (λ (t : Segment). t.has_arguments ≡ false) l → plain_segments l ≡ true
plain_segments-All [] h = refl
plain_segments-All (s ∷ l) (a, h) = rw (a, plain_segments-All l h) refl

is_enum-IsEnum : (t : Ty) → IsEnum t → is_enum t ≡ true
is_enum-IsEnum (path (s ∷ l)) h = plain_segments-All (s ∷ l) h
is_enum-IsEnum (path []) h = absurd h
is_enum-IsEnum infer h = absurd h
is_enum-IsEnum other h = absurd h

stated-IsPresent :
    (o : Option String) (rest : Bool) (l : List ChangeArm)
    → (rest ≡ true) ↔ IsStated l
    → (stated o && rest ≡ true) ↔ (IsPresent o × IsStated l)
stated-IsPresent none rest l ih = (λ h. cc, λ h. absurd h.0)
stated-IsPresent (some s) rest l ih = (λ h. (tt, ih.0 h), λ h. ih.1 h.1)

all_stated-IsStated : (l : List ChangeArm) → (all_stated l ≡ true) ↔ IsStated l
all_stated-IsStated [] = (λ h. tt, λ h. refl)
all_stated-IsStated (a ∷ l) = stated-IsPresent a.state (all_stated l) l (all_stated-IsStated l)

pub readable-Reads : Reads readable
readable-Reads = record {
  types = λ n t. refl;
  commands =
      λ s c h e arms a b d. rw (is_enum-IsEnum s a, is_enum-IsEnum c b, is_enum-IsEnum e d) refl;
  events = λ s e arms a b. rw (is_enum-IsEnum s a, is_enum-IsEnum e b) refl;
  changes = λ s e h entries arms a b.
      rw (is_enum-IsEnum s a, is_enum-IsEnum e b) (all_stated-IsStated arms);
}
