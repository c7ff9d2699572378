-- ===== src/Macros/Parse/Accepted.antt =====
-- Which `impl` blocks edfsm-macros/src/parse.rs accepts.
use Prim.Native.String.{String}
use edfsm.Prelude.{◌≡◌, refl, sym, ap, subst, ◌↔◌, ◌⊎◌, inl, inr, Option, List, [], ◌∷◌, All}
use edfsm.Macros.Syntax.{ok, >>=-eq-ok, ok-injective}
use edfsm.Macros.Parse.{Syn}
use edfsm.Macros.Parse.Item.{Item, Parsed, nothing_parsed, parse_item, parse_items, parse_fsm}
use edfsm.Macros.Parse.Types.{
  Assoc, state_type, command_type, event_type, effect_type, assoc_name, chosen, IsSome, IsAssoc,
  parse_type_item-IsAssoc, parse_type_item-chosen, finish-chosen,
}
use edfsm.Macros.Expand.WellFormed.{Succeeds, chain, iff_trans}
use edfsm.Macros.Parse.MacroItems.{IsKnown, parse_macro_item-Reads, parse_macro_item-chosen}

module _ {ℓ} {Stream : Type ℓ} (syn : Syn Stream) where
  abbrev pub IsItem : Item Stream → Type 0
  IsItem (Item.type_item n t) = IsAssoc n
  IsItem (Item.macro_item n tokens) = IsKnown syn n tokens
  IsItem Item.other_item = ⊥

  -- One of the items declares the type of the given name.
  abbrev pub Declares : String → Item Stream → Type 0
  Declares s (Item.type_item n t) = n ≡ s
  Declares s _ = ⊥

  abbrev pub SomeDeclares : String → List (Item Stream) → Type 0
  SomeDeclares s [] = ⊥
  SomeDeclares s (item ∷ items) = Declares s item ⊎ SomeDeclares s items

  parse_item-IsItem :
      (item : Item Stream) (p : Parsed) → Succeeds (parse_item syn item p) ↔ IsItem item
  unfolding parse_item
  parse_item-IsItem (Item.type_item n t) p = parse_type_item-IsAssoc n t p
  parse_item-IsItem (Item.macro_item n tokens) p = parse_macro_item-Reads syn n tokens p
  parse_item-IsItem Item.other_item p = (λ h. cc, λ h. absurd h)

  parse_item-chosen :
      (a : Assoc) (item : Item Stream) (p q : Parsed)
      → parse_item syn item p ≡ ok q
      → IsSome (chosen a q) ↔ (Declares (assoc_name a) item ⊎ IsSome (chosen a p))
  unfolding parse_item
  parse_item-chosen a (Item.type_item n t) p q h = parse_type_item-chosen a n t p q h
  parse_item-chosen a (Item.macro_item n tokens) p q h =
      let e = parse_macro_item-chosen syn n a tokens p q h in
      (
        λ s. inr (subst IsSome e s),
        λ s. elim s [ inl x ↦ absurd x | inr x ↦ subst IsSome (sym e) x ],
      )
  parse_item-chosen a Item.other_item p q h = cc

  parse_items-IsItem :
      (items : List (Item Stream)) (p : Parsed)
      → Succeeds (parse_items syn items p) ↔ All IsItem items
  unfolding parse_items
  parse_items-IsItem [] p = (λ h. tt, λ h. (p, refl))
  parse_items-IsItem (item ∷ items) p =
      chain (parse_item syn item p) _ (parse_item-IsItem item p) (λ q _. parse_items-IsItem items q)

  parse_items-chosen :
      (a : Assoc) (items : List (Item Stream)) (p q : Parsed)
      → parse_items syn items p ≡ ok q
      → IsSome (chosen a q) ↔ (SomeDeclares (assoc_name a) items ⊎ IsSome (chosen a p))
  unfolding parse_items
  parse_items-chosen a [] p q h =
      let e = ap (chosen a) (ok-injective h) in
      (
        λ s. inr (subst IsSome (sym e) s),
        λ s. elim s [ inl x ↦ absurd x | inr x ↦ subst IsSome e x ],
      )
  parse_items-chosen a (item ∷ items) p q h =
      let (r, r_ok, k) = >>=-eq-ok (parse_item syn item p) _ h in
      let first = parse_item-chosen a item p r r_ok in
      let rest = parse_items-chosen a items r q k in
      (
        λ s. elim (rest.0 s) [
          | inl x ↦ inl (inr x)
          | inr x ↦ elim (first.0 x) [ inl y ↦ inl (inl y) | inr y ↦ inr y ]
        ],
        λ s. elim s [
          | inl (inl y) ↦ rest.1 (inr (first.1 (inl y)))
          | inl (inr x) ↦ rest.1 (inl x)
          | inr y ↦ rest.1 (inr (first.1 (inr y)))
        ],
      )

  nothing-chosen : (a : Assoc) → IsSome (chosen a nothing_parsed) → ⊥
  nothing-chosen state_type h = h
  nothing-chosen command_type h = h
  nothing-chosen event_type h = h
  nothing-chosen effect_type h = h

  -- An `impl` block is accepted by the parser exactly where each of its items is a type `S`, `C`, `E`
  -- or `SE`, or a macro `state!`, `command!`, `event!`, `ignore_command!` or `ignore_event!` whose
  -- tokens parse as what it declares, and where each of the four types is declared.
  pub parse_fsm-IsItem :
      (trait_path : Option (List String)) (items : List (Item Stream))
      → Succeeds (parse_fsm syn trait_path items)
        ↔ (All IsItem items × ((a : Assoc) → SomeDeclares (assoc_name a) items))
  unfolding parse_fsm
  parse_fsm-IsItem trait_path items =
      chain (parse_items syn items nothing_parsed) _ (parse_items-IsItem items nothing_parsed)
        (λ p h. iff_trans (finish-chosen trait_path p) (
          λ s a. elim ((parse_items-chosen a items nothing_parsed p h).0 (s a)) [
            | inl x ↦ x
            | inr x ↦ absurd (nothing-chosen a x)
          ],
          λ s a. (parse_items-chosen a items nothing_parsed p h).1 (inl (s a)),
        ))
