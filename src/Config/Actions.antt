-- ===== src/Config/Actions.antt =====
-- What pull_groups of src/main.c reads from the text of a transfer.
use autodialer_core.Base.{
  ℕ, suc, ◌≡◌, ◌≢◌, refl, ◌∙◌, ap, some, List, [], ◌∷◌, ◌++◌, length, take, drop, Text, All, ◌<◌,
  ◌%◌, arith, u8,
}
use autodialer_core.Structs.{Gateway}
use autodialer_core.Rows.{find_by, Parsers, ActionRow, parse_int}
use autodialer_core.Config.{load_action}
use autodialer_core.Config.Keys.{find_by-some}

-- `pl_strchr` finds the first place of a character; `%d` prints a number that an int holds in
-- digits, without a comma, and `pl_u32` reads them back.
pub record Reads (t : Parsers) : Type 0 where
  pub first :
      (c : ℕ) (before after : Text)
      → All (λ d. d ≢ c) before
      → t.pl_strchr (before ++ c ∷ after) c ≡ some (length before)
  pub digits : (n : ℕ) → n < 2147483648 → t.lib.pl_u32 (t.lib.fmt_d n) ≡ n
  pub plain : (n : ℕ) → n < 2147483648 → All (λ d. d ≢ b',') (t.lib.fmt_d n)

take-length : (g d : Text) → take (length g) (g ++ d) ≡ g
take-length [] d = refl
take-length (c ∷ g) d = ap (◌∷◌ c) (take-length g d)

drop-length : (g : Text) (c : ℕ) (d : Text) → drop (suc (length g)) (g ++ c ∷ d) ≡ d
drop-length [] c d = refl
drop-length (x ∷ g) c d = drop-length g c d

-- The row of a transfer to `number` at the gateway `id`.
abbrev pub transfer_row : Parsers → ℕ → ℕ → Text → ActionRow
transfer_row t key id number = record {
  key_press = some (t.lib.fmt_d key);
  action = some (t.lib.fmt_d 0);
  action_data = some (t.lib.fmt_d id ++ b',' ∷ number);
}

all_of {ℓ κ} : {A : Type ℓ} (P : A → Type κ) → ((x : A) → P x) → (xs : List A) → All P xs
all_of P f [] = tt
all_of P f (x ∷ xs) = (f x, all_of P f xs)

-- If libre's `pl_strchr` finds the first place of a character and `pl_u32` reads back what `%d`
-- prints of a number below 2^31: from the text "id,number" of a transfer, with the id, below 2^31,
-- of a gateway that is loaded, `pull_groups` reads that gateway and that number, commas in the
-- number included.
pub load_action-Reads :
    (t : Parsers) (gs : List Gateway) (key id : ℕ) (number : Text) (g : Gateway)
    → Reads t
    → key < 256
    → id < 2147483648
    → find_by (λ h. h.gateway_id) id gs ≡ some g
    → load_action t gs (transfer_row t key id number)
      ≡ record { action_key = key; action_type = 0; gateway = some id; dest = some number }
unfolding load_action parse_int
load_action-Reads t gs key id number g v small fits found =
    let (_, same) =
      find_by-some (λ h. h.gateway_id) (λ h. h ≡ h) id gs g found
        (all_of (λ h. h ≡ h) (λ h. refl) gs) in
    let at = v.first b',' (t.lib.fmt_d id) number (v.plain id fits) in
    let whole : key % 256 ≡ key = omega arith in
    let named = ap u8 (v.digits key (omega arith)) ∙ whole in
    let kind = ap u8 (v.digits 0 (omega arith)) in
    let way = take-length (t.lib.fmt_d id) (b',' ∷ number) in
    let rest = drop-length (t.lib.fmt_d id) b',' number in
    ground (arith, named, kind, at, way, rest, v.digits id fits, found, same)
