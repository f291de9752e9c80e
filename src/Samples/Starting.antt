-- ===== src/Samples/Starting.antt =====
-- Start-up and the text of a transfer on small inputs.
use autodialer_core.Base.{
  false, ℕ, zero, suc, ◌≡◌, ◌≢◌, refl, ap, true, none, some, [], ◌∷◌, ◌++◌, Text, All, length, ◌==◌,
  arith, if◌then◌else◌, Option,
}
use autodialer_core.Structs.{codes}
use autodialer_core.Rows.{Parsers, find_by}
use autodialer_core.Config.{load_action}
use autodialer_core.Config.Actions.{transfer_row, load_action-Reads}
use autodialer_core.Process.{Startup}
use autodialer_core.Samples.{localhost, libre, trunk}

abbrev startup : Startup
startup = record {
  libre_init = 0;
  options = codes "d";
  cwd = some (codes "/srv");
  conf_alloc = λ path. 0;
  conf_mysql = 0;
  mysql = record { user = codes "u"; pass = codes "p"; host = codes "h"; db = codes "d" };
  server = record { init = true; real_connect = true };
  conf_server = 0;
  uri_decode = 0;
  sa_set = 0;
  sa = localhost;
  conf_audio = 2;
  pl_strdup = none;
  sys_daemon = 0;
  sip = record {
    dns_srv_get = 2;
    dnsc_alloc = 0;
    sip_alloc = 0;
    sip_transp_add = 0;
    sipsess_listen = 0;
  };
  os = λ i. record { zalloc = true; rand = λ k. 7; listen = λ port. 0 };
  thrd_create = true;
  mqueue_alloc = 0;
  incoming = record {
    udp_listen = 0;
    access = true;
    fopen = some (codes "quiet");
    telev_alloc = 0;
  };
  re_main = 0;
  crashed = false;
  signalled = true;
}

-- A number is written as that many strokes.
abbrev strokes : ℕ → Text
strokes zero = []
strokes (suc n) = b'|' ∷ strokes n

-- The first place of a character.
abbrev place : Text → ℕ → Option ℕ
place [] c = none
place (x ∷ xs) c =
    let rest : Option ℕ = elim (place xs c) [ none ↦ none | some k ↦ some (suc k) ] in
    if x == c then some 0 else rest

abbrev tally : Parsers
tally = record {
  lib = record libre { pl_u32 = length; fmt_d = strokes };
  str_casecmp = λ a b. true;
  uri_decode = λ u. some trunk.sip_uri;
  pl_strchr = place;
  re_snprintf = λ s. s;
}

place_first :
    (c : ℕ) (before after : Text)
    → All (λ d. d ≢ c) before
    → place (before ++ c ∷ after) c ≡ some (length before)
place_first c [] after h = ground arith
place_first c (x ∷ before) after h = ground (arith, h.0, place_first c before after h.1)

length-strokes : (n : ℕ) → length (strokes n) ≡ n
length-strokes zero = refl
length-strokes (suc n) = ap suc (length-strokes n)

strokes_plain : (n : ℕ) → All (λ d. d ≢ b',') (strokes n)
strokes_plain zero = tt
strokes_plain (suc n) = ((λ e. omega (arith, e)), strokes_plain n)

load_action-Reads_example :
    load_action tally (trunk ∷ []) (transfer_row tally 1 4 (codes "7,8"))
    ≡ record { action_key = 1; action_type = 0; gateway = some 4; dest = some (codes "7,8") }
unfolding find_by
load_action-Reads_example =
    load_action-Reads tally (trunk ∷ []) 1 4 (codes "7,8") trunk
      (record {
        first = place_first;
        digits = λ n h. length-strokes n;
        plain = λ n h. strokes_plain n;
      })
      (omega arith) (omega arith) refl
