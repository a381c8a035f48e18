-- ===== src/Auth/Cookie.antt =====
-- The cookie of apps/server/src/auth.rs, as lists of code points.
use devhatch.Prelude.{
  split, put_first, lacks, split-one, split-append, all-append, all_mono, or_else, same_refl, map,
  list_eq, ℕ, ◌≡◌, refl, ap, ◌∙◌, Bool, true, false, not, ◌&&◌, Option, none, some, List, [], ◌∷◌,
  ◌++◌, arith, if◌then◌else◌, eqb, all, nat_eq, string_eq, option_eq, codes, is_whitespace,
  trim_start, trim_end,
}

abbrev pub cookie_prefix : List ℕ
cookie_prefix = codes "devhatch_session="

unfoldable pub strip_prefix : List ℕ → List ℕ → Option (List ℕ)
strip_prefix [] cs = some cs
strip_prefix (p ∷ prefix) [] = none
strip_prefix (p ∷ prefix) (c ∷ cs) =
    let rest = strip_prefix prefix cs in if eqb p c then rest else none

abbrev pub value_of : List ℕ → Option (List ℕ)
value_of part = strip_prefix cookie_prefix (trim_end (trim_start part))

-- `find_map`
unfoldable pub find_value : List (List ℕ) → Option (List ℕ)
unfolding strip_prefix
find_value [] = none
find_value (part ∷ parts) = or_else (value_of part) (find_value parts)

-- The header as `to_str` gives it, if it does.
unfoldable pub cookie : Option (List ℕ) → Option (List ℕ)
unfolding find_value split
cookie none = none
cookie (some header) = find_value (split 59 header)

unfoldable pub cookie_header : (token : List ℕ) (clear secure : Bool) → List ℕ
cookie_header token clear secure =
    cookie_prefix
    ++ (token
        ++ (codes "; Path=/; HttpOnly; SameSite=Strict; Max-Age="
            ++ (codes (if clear then "0" else "604800")
                ++ codes (if secure then "; Secure" else ""))))

-- What a browser keeps of the header: the name and the value.
abbrev pub name_and_value : List ℕ → List ℕ
name_and_value [] = []
name_and_value (c ∷ cs) = let rest = name_and_value cs in if eqb c 59 then [] else c ∷ rest

-- Neither a semicolon nor white space, as in the tokens, which are hexadecimal digits.
abbrev pub is_plain : List ℕ → Bool
is_plain cs = all (λ c. not (eqb c 59) && not (is_whitespace c)) cs

name_and_value-cookie_header :
    (token : List ℕ) (clear secure : Bool)
    → is_plain token ≡ true
    → name_and_value (cookie_header token clear secure) ≡ cookie_prefix ++ token
unfolding cookie_header
name_and_value-cookie_header token clear secure h = ap (λ l. cookie_prefix ++ l) (up_to token h)
  where
    up_to :
        (cs : List ℕ)
        → is_plain cs ≡ true
        → name_and_value (
            cs
            ++ (codes "; Path=/; HttpOnly; SameSite=Strict; Max-Age="
                ++ (codes (if clear then "0" else "604800")
                    ++ codes (if secure then "; Secure" else ""))))
          ≡ cs
    up_to [] e = refl
    up_to (c ∷ cs) e = ground (arith, up_to cs)

abbrev pub no_semicolon : List ℕ → Bool
no_semicolon cs = lacks 59 cs

trim_end-plain : (cs : List ℕ) → all (λ c. not (is_whitespace c)) cs ≡ true → trim_end cs ≡ cs
unfolding trim_end
trim_end-plain [] h = refl
trim_end-plain (c ∷ cs) h = ground (arith, trim_end-plain cs)

strip_prefix-append : (prefix cs : List ℕ) → strip_prefix prefix (prefix ++ cs) ≡ some cs
unfolding strip_prefix
strip_prefix-append [] cs = refl
strip_prefix-append (p ∷ prefix) cs = rw (same_refl p) (strip_prefix-append prefix cs)

-- The header of several cookies.
abbrev pub join_from : List ℕ → List (List ℕ) → List ℕ
join_from part [] = part
join_from part (next ∷ parts) = part ++ 59 ∷ 32 ∷ join_from next parts

abbrev pub join : List (List ℕ) → List ℕ
join [] = []
join (part ∷ parts) = join_from part parts

split-join_from :
    (part : List ℕ) (parts : List (List ℕ))
    → no_semicolon part ≡ true
    → all no_semicolon parts ≡ true
    → split 59 (join_from part parts) ≡ part ∷ map (λ p. 32 ∷ p) parts
split-join_from part [] h e = split-one 59 part h
split-join_from part (next ∷ parts) h e =
    let (here, later) = parts_of (no_semicolon next) (all no_semicolon parts) e in
    split-append 59 part (32 ∷ join_from next parts) h
    ∙ ap (λ l. part ∷ l) (spaced next parts (split-join_from next parts here later))
  where
    parts_of : (a b : Bool) → a && b ≡ true → (a ≡ true) × (b ≡ true)
    parts_of a b h = ground arith

    spaced :
        (next : List ℕ) (parts : List (List ℕ))
        → split 59 (join_from next parts) ≡ next ∷ map (λ p. 32 ∷ p) parts
        → split 59 (32 ∷ join_from next parts) ≡ (32 ∷ next) ∷ map (λ p. 32 ∷ p) parts
    spaced next parts f = unfold split in ap (put_first 32) f

find_value-spaced :
    (parts : List (List ℕ)) → find_value (map (λ p. 32 ∷ p) parts) ≡ find_value parts
unfolding find_value trim_start is_whitespace
find_value-spaced [] = refl
find_value-spaced (part ∷ parts) = ap (or_else (value_of part)) (find_value-spaced parts)

find_value-append :
    (before after : List (List ℕ))
    → find_value before ≡ none
    → find_value (before ++ after) ≡ find_value after
unfolding find_value
find_value-append [] after h = refl
find_value-append (part ∷ before) after h =
    passed_over (value_of part) h (find_value-append before after)
  where
    passed_over :
        (v : Option (List ℕ))
        → or_else v (find_value before) ≡ none
        → (find_value before ≡ none → find_value (before ++ after) ≡ find_value after)
        → or_else v (find_value (before ++ after)) ≡ find_value after
    passed_over none e rest = rest e
    passed_over (some x) e rest = absurd (cc e)

cookie-join :
    (parts : List (List ℕ))
    → all no_semicolon parts ≡ true
    → cookie (some (join parts)) ≡ find_value parts
unfolding cookie
cookie-join [] h = unfold find_value split strip_prefix trim_end trim_start in refl
cookie-join (part ∷ parts) h =
    let (here, later) = parts_of (no_semicolon part) (all no_semicolon parts) h in
    ap find_value (split-join_from part parts here later)
    ∙ (unfold find_value in ap (or_else (value_of part)) (find_value-spaced parts))
  where
    parts_of : (a b : Bool) → a && b ≡ true → (a ≡ true) × (b ≡ true)
    parts_of a b h = ground arith

is_plain-no_semicolon : (cs : List ℕ) → is_plain cs ≡ true → no_semicolon cs ≡ true
is_plain-no_semicolon cs h = all_mono _ _ cs (λ c e. left (eqb c 59) _ e) h
  where
    left : (a b : Bool) → not a && b ≡ true → not a ≡ true
    left a b h = ground arith

is_plain-whitespace :
    (cs : List ℕ) → is_plain cs ≡ true → all (λ c. not (is_whitespace c)) cs ≡ true
is_plain-whitespace cs h = all_mono _ _ cs (λ c e. right (eqb c 59) (is_whitespace c) e) h
  where
    right : (a b : Bool) → not a && not b ≡ true → not b ≡ true
    right a b h = ground arith

is_plain-cookie_prefix :
    (token : List ℕ) → is_plain token ≡ true → is_plain (cookie_prefix ++ token) ≡ true
unfolding is_whitespace
is_plain-cookie_prefix token h =
    all-append (λ c. not (eqb c 59) && not (is_whitespace c)) cookie_prefix token ∙ h

value_of-cookie_prefix :
    (token : List ℕ) → is_plain token ≡ true → value_of (cookie_prefix ++ token) ≡ some token
unfolding trim_start is_whitespace
value_of-cookie_prefix token h =
    ap (strip_prefix cookie_prefix) (
      trim_end-plain (cookie_prefix ++ token)
        (is_plain-whitespace (cookie_prefix ++ token) (is_plain-cookie_prefix token h)))
    ∙ strip_prefix-append cookie_prefix token

-- What a browser keeps of the cookie of a login is read back as the token, also among other
-- cookies, for a token without white space and semicolons, and others without semicolons of which
-- none before it is read as a session.
pub cookie-cookie_header :
    (token : List ℕ) (secure : Bool) (before after : List (List ℕ))
    → is_plain token ≡ true
    → all no_semicolon before ≡ true
    → all no_semicolon after ≡ true
    → find_value before ≡ none
    → cookie (some (join (before ++ name_and_value (cookie_header token false secure) ∷ after)))
      ≡ some token
cookie-cookie_header token secure before after plain h e absent =
    rw (name_and_value-cookie_header token false secure plain) (
      cookie-join (before ++ (cookie_prefix ++ token) ∷ after) allowed
      ∙ find_value-append before ((cookie_prefix ++ token) ∷ after) absent
      ∙ (unfold find_value in
          ap (λ v. or_else v (find_value after)) (value_of-cookie_prefix token plain)))
  where
    allowed : all no_semicolon (before ++ (cookie_prefix ++ token) ∷ after) ≡ true
    allowed =
        all-append no_semicolon before ((cookie_prefix ++ token) ∷ after)
        ∙ rw
            (h, is_plain-no_semicolon (cookie_prefix ++ token) (is_plain-cookie_prefix token plain))
            e
