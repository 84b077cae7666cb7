-- ===== src/Jwt/Settings.antt =====
-- jwt/jwt.go: the options of signers and verifiers. A clock is what it reads at each moment.
use libauth.Prelude.{Option, List, ℕ, none, some, [], ◌∷◌}
use libauth.Prelude.Int.{ℤ, pos}
use libauth.Jwt.Time.{Time}
use libauth.Text.{Text}

-- A moment is a number that orders the calls.
abbrev pub Clock : Type 0
Clock = ℕ → Time

pub record Settings : Type 0 where
  pub ttl : ℤ
  pub issuer : Text
  pub audience : List Text
  pub leeway : ℤ
  pub expect_issuer : Text
  pub expect_audience : Text
  pub now : Clock

-- `Option`: `WithTTL`, `WithIssuer`, `WithAudience`, `WithLeeway`, `WithExpectedIssuer`,
-- `WithExpectedAudience` and `WithNow`.
pub data Setter : Type 0 where
  with_ttl with_leeway : ℤ → Setter
  with_issuer with_expected_issuer with_expected_audience : Text → Setter
  with_audience : List Text → Setter
  with_clock : Option Clock → Setter

-- The clock of the system, `time.Now`, is the first argument.
abbrev pub set : Clock → Setter → Settings → Settings
set system (with_ttl d) s = record s { ttl = d }
set system (with_leeway d) s = record s { leeway = d }
set system (with_issuer iss) s = record s { issuer = iss }
set system (with_expected_issuer iss) s = record s { expect_issuer = iss }
set system (with_expected_audience aud) s = record s { expect_audience = aud }
set system (with_audience aud) s = record s { audience = aud }
set system (with_clock none) s = record s { now = system }
set system (with_clock (some now)) s = record s { now = now }

unfoldable pub set_all : Clock → List (Option Setter) → Settings → Settings
set_all system [] s = s
set_all system (none ∷ opts) s = set_all system opts s
set_all system (some opt ∷ opts) s = set_all system opts (set system opt s)

-- `newSettings`
abbrev pub new_settings : Clock → List (Option Setter) → Settings
new_settings system opts = set_all system opts (record {
  ttl = pos 0;
  issuer = [];
  audience = [];
  leeway = pos 0;
  expect_issuer = [];
  expect_audience = [];
  now = system;
})
