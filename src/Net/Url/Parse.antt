-- ===== src/Net/Url/Parse.antt =====
-- `net/url`: a URI that was printed is parsed again.
use dbctl.Base.{
  ℕ, ◌≡◌, refl, sym, ◌∙◌, ap, true, not, Option, none, some, [], ◌∷◌, ◌++◌, append_assoc,
  append-nil, ◌==◌, if◌then◌else◌, Text, is_empty, all_of, ok, arith,
}
use dbctl.Net.Url.{Url, Userinfo, cut, print, parse, parse_rest, parse_host, path_of}
use dbctl.Net.Url.Escaping.{encode_path, escape, escape_one, unescape, should_escape, is_alnum}
use dbctl.Net.Url.Escape.{unescape-escape}
use dbctl.Net.Url.Cut.{lacks, all_of-append, all_of-weaken, cut-found, cut-none, cut_last-found}
use dbctl.Net.Url.Plain.{in_path, escape_path-in_path}
use dbctl.Net.Url.Printable.{
  IsPrintable, inner-lacks_colon, digits-is_inner, from_info, from_authority, from_scheme,
  from_front, from_body, scheme-in_path, scheme-lacks_colon, query_part-lacks_hash, or_empty_given,
}
use dbctl.Net.Url.Authority.{IsAuthority}

module _ {scheme host port path query authority : Text} {user : Option Userinfo}
    (v : IsPrintable scheme host port path query)
    (a : IsAuthority user authority (host ++ (b':' ∷ port))) where
  abbrev address : Text
  address = host ++ (b':' ∷ port)

  abbrev rest : Text
  rest = authority ++ (b'/' ∷ escape encode_path path)

  host_parsed : parse_host address ≡ ok address
  unfolding parse_host
  host_parsed = ground (
    arith,
    cut_last-found b':' host port (inner-lacks_colon port (digits-is_inner port v.port_digits)),
    v.port_digits,
  )

  path_parsed : unescape (path_of (some (escape encode_path path))) ≡ ok (b'/' ∷ path)
  unfolding escape escape_one should_escape is_alnum
  path_parsed = unescape-escape encode_path (b'/' ∷ path) refl v.path_bytes

  abbrev parsed : Url
  parsed = record {
    scheme = scheme;
    user = user;
    host = address;
    path = b'/' ∷ path;
    raw_query = query;
  }

  info_parsed :
      from_info scheme query (path_of (some (escape encode_path path))) (a.info, address)
      ≡ ok parsed
  info_parsed = rw (a.info_parsed, host_parsed, path_parsed) refl

  parse_rest-rest : parse_rest scheme query rest ≡ ok parsed
  unfolding parse_rest
  parse_rest-rest =
      ap (from_authority scheme query)
        (cut-found b'/' authority (escape encode_path path) a.no_slash)
      ∙ ap (from_info scheme query (path_of (some (escape encode_path path)))) a.info_cut
      ∙ info_parsed

  abbrev front : Text
  front = scheme ++ (b':' ∷ b'/' ∷ b'/' ∷ rest)

  abbrev printed : Text
  printed = front ++ (if is_empty query then [] else b'?' ∷ query)

  print-printed :
      print
        (record { scheme = scheme; user = user; host = address; path = path; raw_query = query })
      ≡ printed
  unfolding print
  print-printed = rw (v.path_given, v.path_relative, sym a.printed) (simp append_assoc)

  front-in_path : all_of in_path front ≡ true
  front-in_path =
      all_of-append in_path scheme (b':' ∷ b'/' ∷ b'/' ∷ rest) (scheme-in_path scheme v.scheme_rest)
        (all_of-append in_path authority (b'/' ∷ escape encode_path path) a.in_front
          (escape_path-in_path path v.path_bytes))

  front-lacks : (k : ℕ) → ((c : ℕ) → in_path c ≡ true → not (c == k) ≡ true) → lacks k front ≡ true
  front-lacks k w = all_of-weaken in_path (λ c. not (c == k)) front w front-in_path

  query_cut : cut b'?' printed ≡ (front, (if is_empty query then none else some query))
  query_cut = query_cut_of query
    where
      lacks_mark : lacks b'?' front ≡ true
      lacks_mark = front-lacks b'?' (λ c h. ground (arith, h))

      query_cut_of :
          (q : Text)
          → cut b'?' (front ++ (if is_empty q then [] else b'?' ∷ q))
            ≡ (front, (if is_empty q then none else some q))
      query_cut_of [] = ap (cut b'?') (append-nil front) ∙ cut-none b'?' front lacks_mark
      query_cut_of (c ∷ q) = cut-found b'?' front (c ∷ q) lacks_mark

  printed-lacks_hash : lacks b'#' printed ≡ true
  printed-lacks_hash =
      all_of-append (λ c. not (c == b'#')) front (if is_empty query then [] else b'?' ∷ query)
        (front-lacks b'#' (λ c h. ground (arith, h))) (query_part-lacks_hash query v.query_plain)

  scheme_parsed : from_scheme printed query (scheme, some (b'/' ∷ b'/' ∷ rest)) ≡ ok parsed
  scheme_parsed = rw (v.scheme_starts, v.scheme_rest) parse_rest-rest

  -- A URI that is printed from its parts is parsed into them, the path with a `/` in front.
  pub parse-print :
      parse (
        print (record {
          scheme = scheme;
          user = user;
          host = host ++ (b':' ∷ port);
          path = path;
          raw_query = query;
        }))
      ≡ ok (record {
        scheme = scheme;
        user = user;
        host = host ++ (b':' ∷ port);
        path = b'/' ∷ path;
        raw_query = query;
      })
  unfolding parse
  parse-print =
      ap parse print-printed
      ∙ ap (from_body printed) (cut-none b'#' printed printed-lacks_hash)
      ∙ ap (from_front printed) query_cut
      ∙ ap (λ q. from_scheme printed q (cut b':' front)) (or_empty_given query)
      ∙ ap (from_scheme printed query)
          (cut-found b':' scheme (b'/' ∷ b'/' ∷ rest) (scheme-lacks_colon scheme v.scheme_rest))
      ∙ scheme_parsed
