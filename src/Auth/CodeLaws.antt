-- ===== src/Auth/CodeLaws.antt =====
-- How often a verification code can be guessed.
use swift_chat_backend.Base.{
  ℕ, suc, ◌+◌, ◌≤◌, ◌≡◌, ◌≢◌, inl, inr, false, ◌&&◌, none, some, List, [], ◌∷◌, arith, ok, ◌==◌,
  ltb, leb, if◌then◌else◌, find, update, length, Bool-cases,
}
use swift_chat_backend.Db.{Db, Account, Otp}
use swift_chat_backend.Users.{has_email}
use swift_chat_backend.Auth.{TokenPair, is_otp_of}
use swift_chat_backend.Auth.Registration.{verify_email, failed_once}

-- A call of `verifyEmail` for one email.
pub record Guess : Type 0 where
  pub now : ℕ
  pub token : ℕ
  pub otp : ℕ

module _ (digest : ℕ → ℕ) (email : ℕ) where
  abbrev pub guess : Guess → Db → Db
  guess g db = (verify_email digest g.now g.token email g.otp db).1

  abbrev pub guess_all : List Guess → Db → Db
  guess_all [] db = db
  guess_all (g ∷ guesses) db = guess_all guesses (guess g db)

  -- Guesses that come before the code expires and are wrong.
  abbrev pub AreWrong : (otp_hash expires_at : ℕ) → List Guess → Type 0
  AreWrong h e [] = Unit
  AreWrong h e (g ∷ guesses) =
      ((digest g.otp == h) ≡ false) × ((ltb e g.now ≡ false) × AreWrong h e guesses)

  -- The code of an account that is not verified: so many attempts have failed.
  pub record HasFailed (l : Account) (h e n : ℕ) (db : Db) : Type 0 where
    pub code : Otp
    pub account : find (has_email email) db.accounts ≡ some l
    pub found : find (is_otp_of l.id) db.otps ≡ some code
    pub unverified : l.is_email_verified ≡ false
    pub unused : code.used_at ≡ none
    pub hash : code.otp_hash ≡ h
    pub expiry : code.expires_at ≡ e
    pub failed : n ≤ code.attempts

  find-failed :
      (a now : ℕ) (rows : List Otp) (o : Otp)
      → find (is_otp_of a) rows ≡ some o
      → find (is_otp_of a) (update (λ x. is_otp_of a x && ltb x.attempts 5) (failed_once now) rows)
        ≡ some (if ltb o.attempts 5 then failed_once now o else o)
  find-failed a now [] o e = cc
  find-failed a now (x ∷ rows) o e = ground (arith, find-failed a now rows o)

  -- With five failed attempts no code is accepted.
  HasFailed-locked :
      (l : Account) (h e : ℕ) (db : Db) (g : Guess) (pair : TokenPair)
      → HasFailed l h e 5 db
      → (verify_email digest g.now g.token email g.otp db).0 ≢ ok pair
  unfolding verify_email
  HasFailed-locked l h e db g pair f done =
      ground (arith, f.account, f.found, f.unverified, f.failed, done)

  HasFailed-weaken :
      (l : Account) (h e m n : ℕ) (db : Db) → m ≤ n → HasFailed l h e n db → HasFailed l h e m db
  HasFailed-weaken l h e m n db le f = record {
    code = f.code;
    account = f.account;
    found = f.found;
    unverified = f.unverified;
    unused = f.unused;
    hash = f.hash;
    expiry = f.expiry;
    failed = ground (arith, f.failed);
  }

  after_wrong : Otp → ℕ → Otp
  after_wrong o now = if ltb o.attempts 5 then failed_once now o else o

  guess-tables :
      (l : Account) (h e n : ℕ) (db : Db) (g : Guess)
      → (f : HasFailed l h e n db) → (digest g.otp == h) ≡ false
      → ltb e g.now ≡ false
      → (find (has_email email) (guess g db).accounts ≡ some l)
        × (find (is_otp_of l.id) (guess g db).otps ≡ some (after_wrong f.code g.now))
  unfolding verify_email after_wrong
  guess-tables l h e n db g f wrong early = ground (
    arith,
    f.account,
    f.found,
    f.unverified,
    f.unused,
    f.hash,
    f.expiry,
    wrong,
    early,
    find-failed l.id g.now db.otps f.code f.found,
  )

  guess-HasFailed :
      (l : Account) (h e n : ℕ) (db : Db) (g : Guess)
      → HasFailed l h e n db
      → n ≤ 4
      → (digest g.otp == h) ≡ false
      → ltb e g.now ≡ false
      → HasFailed l h e (suc n) (guess g db)
  unfolding after_wrong
  guess-HasFailed l h e n db g f le wrong early =
      let tables = guess-tables l h e n db g f wrong early in
      elim (Bool-cases (ltb f.code.attempts 5)) [
        | inl few ↦ record {
          code = failed_once g.now f.code;
          account = tables.0;
          found = rw few at tables.1;
          unverified = f.unverified;
          unused = f.unused;
          hash = f.hash;
          expiry = f.expiry;
          failed = ground (arith, f.failed);
        }
        | inr many ↦ record {
          code = f.code;
          account = tables.0;
          found = rw many at tables.1;
          unverified = f.unverified;
          unused = f.unused;
          hash = f.hash;
          expiry = f.expiry;
          failed = ground (arith, many);
        }
      ]

  -- An account is locked after five failures: with the wrong guesses that come before the code expires
  -- and those that failed before them five or more, `verifyEmail` accepts no code at all, the right one
  -- included, at any time, as long as no new code is asked for.
  pub guess_all-locked :
      (l : Account) (h e n : ℕ) (guesses : List Guess) (db : Db) (last : Guess) (pair : TokenPair)
      → HasFailed l h e n db
      → AreWrong h e guesses
      → 5 ≤ n + length guesses
      → (verify_email digest last.now last.token email last.otp (guess_all guesses db)).0 ≢ ok pair
  guess_all-locked l h e n [] db last pair f wrong le =
      HasFailed-locked l h e db last pair (HasFailed-weaken l h e 5 n db (omega arith) f)
  guess_all-locked l h e n (g ∷ guesses) db last pair f wrong le = elim (Bool-cases (leb n 4)) [
    | inl few ↦
        guess_all-locked l h e (suc n) guesses (guess g db) last pair
          (guess-HasFailed l h e n db g f (ground (arith, few)) wrong.0 wrong.1.0) wrong.1.1
          (omega arith)
    | inr many ↦
        guess_all-locked l h e 5 guesses (guess g db) last pair
          (guess-HasFailed l h e 4 db g (HasFailed-weaken l h e 4 n db (ground (arith, many)) f)
            (omega arith) wrong.0 wrong.1.0)
          wrong.1.1 (omega arith)
  ]
