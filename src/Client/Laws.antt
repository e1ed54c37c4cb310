-- ===== src/Client/Laws.antt =====
-- options.go: whose options count.
use dbctl.Base.{
  ℕ, ◌≡◌, refl, false, List, [], ◌∷◌, ◌++◌, Text, codes, is_empty, arith, ok, is_ok, then_result,
  Result-cases, inl, inr,
}
use dbctl.Base.Decimal.{parse_uint, format_uint}
use dbctl.Container.{Env}
use dbctl.Net.Url
use dbctl.Client.Options.{
  Config, Setting, default_config, env_port, config_from, from_env, apply_options, with_host,
  get_host_url,
}

apply_options-append :
    (opts more : List Setting) (c : Config)
    → apply_options (opts ++ more) c ≡ then_result (apply_options opts c) (apply_options more)
unfolding apply_options
apply_options-append [] more c = refl
apply_options-append (opt ∷ opts) more c = elim (Result-cases (opt c)) [
  | inl (d, q) ↦ ground (arith, q, apply_options-append opts more d)
  | inr (e, q) ↦ ground (arith, q)
]

-- A last `WithHost` decides which server is used, whatever the options before it and the environment
-- say, and changes nothing else.
config_from-with_host :
    (env : Env) (opts : List Setting) (address : Text) (port : ℕ) (c : Config)
    → config_from env opts ≡ ok c
    → (config_from env (opts ++ with_host address port ∷ [])
        ≡ ok (record c { host_address = address; host_port = port }))
      × (get_host_url (record c { host_address = address; host_port = port })
          ≡ codes "http://" ++ Url.join_host_port address (format_uint port))
unfolding config_from apply_options with_host get_host_url
config_from-with_host env opts address port c h =
    elim (Result-cases (from_env env default_config)) [
      | inl (d, q) ↦
          (ground (arith, q, h, apply_options-append opts (with_host address port ∷ []) d), refl)
      | inr (e, q) ↦ absurd (ground (arith, q, h))
    ]

-- A port in the environment that is not a number of 32 bits fails every call, also one whose options
-- set the port.
config_from-bad_port :
    (env : Env) (opts : List Setting)
    → is_empty (env env_port) ≡ false
    → is_ok (parse_uint 32 (env env_port)) ≡ false
    → is_ok (config_from env opts) ≡ false
unfolding config_from from_env
config_from-bad_port env opts given bad = elim (Result-cases (parse_uint 32 (env env_port))) [
  | inl (p, q) ↦ absurd (ground (arith, q, bad))
  | inr (e, q) ↦ ground (arith, q, given)
]
