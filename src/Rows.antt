-- ===== src/Rows.antt =====
-- What pull_groups of src/main.c reads: the rows of its queries and their texts, and its lists by
-- number.
use autodialer_core.Base.{
  ℕ, Bool, true, false, not, ◌&&◌, Option, none, some, List, [], ◌∷◌, ◌++◌, Text, ◌==◌, is_empty,
  if◌then◌else◌,
}
use autodialer_core.Structs.{Uri, Libre, codes}

-- `list_apply` with a handler that compares numbers, and an entry that changes or leaves its list.
module _ {ℓ} {A : Type ℓ} (key : A → ℕ) where
  unfoldable pub find_by : ℕ → List A → Option A
  find_by id [] = none
  find_by id (x ∷ xs) = if key x == id then some x else find_by id xs

  unfoldable pub put : A → List A → List A
  put x [] = []
  put x (y ∷ ys) = if key y == key x then x ∷ ys else y ∷ put x ys

  unfoldable pub unlink : ℕ → List A → List A
  unlink id [] = []
  unlink id (y ∷ ys) = if key y == id then ys else y ∷ unlink id ys

-- What libre makes of texts: whether two differ beyond case, a URI, the place of a character, and
-- the first 1023 characters.
pub record Parsers : Type 0 where
  pub lib : Libre
  pub str_casecmp : Text → Text → Bool
  pub uri_decode : Text → Option Uri
  pub pl_strchr : Text → ℕ → Option ℕ
  pub re_snprintf : Text → Text

-- The columns of the queries; any may be NULL.
pub record GatewayRow : Type 0 where
  pub id : Option Text
  pub ip : Option Text
  pub port : Option Text
  pub user : Option Text
  pub password : Option Text
  pub prefix : Option Text
  pub codec : Option Text

pub record CampaignRow : Type 0 where
  pub id : Option Text
  pub client_id : Option Text
  pub frequency : Option Text
  pub max_call_duration : Option Text
  pub caller_id : Option Text
  pub filename : Option Text
  pub status : Option Text
  pub retries_time : Option Text
  pub max_call_retry : Option Text
  pub play_count : Option Text
  pub gateway_id : Option Text
  pub pbx_gateway_id : Option Text
  pub pbx_number : Option Text

pub record CallRow : Type 0 where
  pub id : Option Text
  pub contact_number : Option Text

pub record ActionRow : Type 0 where
  pub key_press : Option Text
  pub action : Option Text
  pub action_data : Option Text

unfoldable pub parse_int : Parsers → Option Text → ℕ
parse_int t none = 0
parse_int t (some s) = t.lib.pl_u32 s

abbrev pub text : Option Text → Text
text none = []
text (some s) = s

-- `str_len(s) > 0`
abbrev pub has_text : Option Text → Bool
has_text s = not (is_empty (text s))

-- `str_casecmp` of two pointers.
unfoldable pub differs : Parsers → Option Text → Option Text → Bool
differs t none none = false
differs t none (some b) = true
differs t (some a) none = true
differs t (some a) (some b) = t.str_casecmp a b

unfoldable pub gateway_uri : Parsers → GatewayRow → Text
unfolding parse_int
gateway_uri t r =
    let user : Text =
      if has_text r.user && has_text r.password
      then text r.user ++ (codes ":" ++ text r.password)
      else if has_text r.user
      then text r.user
      else codes "autodialer" in
    t.re_snprintf (
      codes "sip:"
      ++ (user
          ++ (codes "@"
              ++ (text r.ip
                  ++ (codes ":"
                      ++ (text r.port
                          ++ (codes ";prefix="
                              ++ (text r.prefix
                                  ++ (codes ";codec=" ++ t.lib.fmt_d (parse_int t r.codec))))))))))
