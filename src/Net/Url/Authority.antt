-- ===== src/Net/Url/Authority.antt =====
-- `net/url`: the authority of a URI, with a user and a password, with a user only, and with neither.
use dbctl.Base.{
  ℕ, ◌≡◌, refl, Bool, true, not, ◌&&◌, Option, none, some, [], ◌∷◌, ◌++◌, append_assoc, ◌==◌, Text,
  all_of, ok, arith,
}
use dbctl.Net.Url.{Userinfo, print_user, cut_last, parse_user, valid_user, is_user_char}
use dbctl.Net.Url.Escaping.{encode_user, escape}
use dbctl.Net.Url.Escape.{unescape-escape, all_bytes}
use dbctl.Net.Url.Cut.{
  lacks, all_of-append, all_of-weaken, cut-found, cut-none, cut_last-found, cut_last-none,
}
use dbctl.Net.Url.Plain.{in_path, escape_user-is_inner, escape_user-valid}
use dbctl.Net.Url.Printable.{inner-lacks_slash, inner-lacks_colon, valid_user-all_of, inner-in_path}

-- An authority that is printed for a user, and from which the user is parsed.
pub record IsAuthority (user : Option Userinfo) (authority address : Text) : Type 0 where
  pub printed : print_user user ++ address ≡ authority
  pub info : Option Text
  pub info_cut : cut_last b'@' authority ≡ (info, address)
  pub info_parsed : parse_user info ≡ ok user
  pub no_slash : lacks b'/' authority ≡ true
  pub in_front : all_of in_path authority ≡ true

-- What stands behind the user: no `/`, `?`, `@` or `#`.
abbrev pub is_address : ℕ → Bool
is_address c = not (c == b'/') && (not (c == b'@') && (not (c == b'?') && not (c == b'#')))

address-lacks_slash : (s : Text) → all_of is_address s ≡ true → lacks b'/' s ≡ true
address-lacks_slash s = all_of-weaken is_address (λ c. not (c == b'/')) s (λ c h. ground (arith, h))

address-lacks_at : (s : Text) → all_of is_address s ≡ true → lacks b'@' s ≡ true
address-lacks_at s = all_of-weaken is_address (λ c. not (c == b'@')) s (λ c h. ground (arith, h))

address-in_path : (s : Text) → all_of is_address s ≡ true → all_of in_path s ≡ true
address-in_path s = all_of-weaken is_address in_path s (λ c h. ground (arith, h))

pub no_user : (address : Text) → all_of is_address address ≡ true → IsAuthority none address address
unfolding print_user parse_user
no_user address h = record {
  printed = refl;
  info = none;
  info_cut = cut_last-none b'@' address (address-lacks_at address h);
  info_parsed = refl;
  no_slash = address-lacks_slash address h;
  in_front = address-in_path address h;
}

module _ (user : Text) (user_bytes : all_bytes user ≡ true) (address : Text)
    (plain : all_of is_address address ≡ true) where
  abbrev eu : Text
  eu = escape encode_user user

  info-parsed_alone : parse_user (some eu) ≡ ok (some (record { username = user; password = none }))
  unfolding parse_user
  info-parsed_alone =
      rw
        (
          valid_user-all_of eu (escape_user-valid user user_bytes),
          cut-none b':' eu (inner-lacks_colon eu (escape_user-is_inner user user_bytes)),
          unescape-escape encode_user user refl user_bytes,
        )
        refl

  pub only_user :
      IsAuthority
        (some (record { username = user; password = none }))
        (eu ++ (b'@' ∷ address))
        address
  unfolding print_user
  only_user = record {
    printed = append_assoc eu (b'@' ∷ []) address;
    info = some eu;
    info_cut = cut_last-found b'@' eu address (address-lacks_at address plain);
    info_parsed = info-parsed_alone;
    no_slash =
        all_of-append (λ c. not (c == b'/')) eu (b'@' ∷ address)
          (inner-lacks_slash eu (escape_user-is_inner user user_bytes))
          (address-lacks_slash address plain);
    in_front =
        all_of-append in_path eu (b'@' ∷ address)
          (inner-in_path eu (escape_user-is_inner user user_bytes)) (address-in_path address plain);
  }

  module _ (pass : Text) (pass_bytes : all_bytes pass ≡ true) where
    abbrev ep : Text
    ep = escape encode_user pass

    info-parsed :
        parse_user (some (eu ++ (b':' ∷ ep)))
        ≡ ok (some (record { username = user; password = some pass }))
    unfolding parse_user
    info-parsed =
        let valid : valid_user (eu ++ (b':' ∷ ep)) ≡ true = valid_user-all_of (eu ++ (b':' ∷ ep)) (
          all_of-append is_user_char eu (b':' ∷ ep) (escape_user-valid user user_bytes)
            (escape_user-valid pass pass_bytes)) in
        rw
          (
            valid,
            cut-found b':' eu ep (inner-lacks_colon eu (escape_user-is_inner user user_bytes)),
            unescape-escape encode_user user refl user_bytes,
            unescape-escape encode_user pass refl pass_bytes,
          )
          refl

    pub user_and_password :
        IsAuthority
          (some (record { username = user; password = some pass }))
          ((eu ++ (b':' ∷ ep)) ++ (b'@' ∷ address))
          address
    unfolding print_user
    user_and_password = record {
      printed = simp append_assoc;
      info = some (eu ++ (b':' ∷ ep));
      info_cut = cut_last-found b'@' (eu ++ (b':' ∷ ep)) address (address-lacks_at address plain);
      info_parsed = info-parsed;
      no_slash =
          all_of-append (λ c. not (c == b'/')) (eu ++ (b':' ∷ ep)) (b'@' ∷ address)
            (all_of-append (λ c. not (c == b'/')) eu (b':' ∷ ep)
              (inner-lacks_slash eu (escape_user-is_inner user user_bytes))
              (inner-lacks_slash ep (escape_user-is_inner pass pass_bytes)))
            (address-lacks_slash address plain);
      in_front =
          all_of-append in_path (eu ++ (b':' ∷ ep)) (b'@' ∷ address)
            (all_of-append in_path eu (b':' ∷ ep)
              (inner-in_path eu (escape_user-is_inner user user_bytes))
              (inner-in_path ep (escape_user-is_inner pass pass_bytes)))
            (address-in_path address plain);
    }
