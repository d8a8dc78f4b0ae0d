-- ===== src/Tests/Masking.antt =====
-- transform/transform.go: a chain that drops one column and masks another.
use gtc.Base.{◌≡◌, refl, inl, true, [], ◌∷◌, none, some}
use gtc.Base.Dict
use gtc.Domain.Event.{CdcEvent, str}
use gtc.Transform.Chain.{CompiledSpec, apply, mask_column}
use gtc.Transform.Chain.Columns.{Gone, apply-drops}
use gtc.Tests.World.{event}

abbrev hide : CompiledSpec
hide = record {
  filter = none;
  partial = none;
  drop_columns = "password" ∷ [];
  mask = ("email", λ v. str "***") ∷ ("password", λ v. str "***") ∷ [];
}

abbrev user : CdcEvent
user = record (event "1" "users") {
  new_data = some (("email", str "a@b") ∷ ("password", str "x") ∷ []);
}

abbrev shown : CdcEvent
shown = record user { new_data = some (("email", str "***") ∷ []) }

hidden : apply (some (hide ∷ [])) user ≡ (shown, true, none)
unfolding apply Dict.get Dict.put Dict.remove mask_column
hidden = refl

apply-drops_example : Gone "password" shown
apply-drops_example =
    apply-drops (hide ∷ []) hide "password" user shown (inl refl) (inl refl) hidden
