-- ===== src/Process/Environment.antt =====
-- What the two processes make of their environment variables (services/core/main.go,
-- services/sidecar/main.go, tlsconfig/tlsconfig.go). `Getenv` gives "" for one that is not set.
use Prim.Native.Char.{code}
use rate_cap.Prelude.{
  ℕ, ◌+◌, String, Bool, true, false, not, ◌&&◌, ◌||◌, List, [], ◌∷◌, Option, none, some,
  if◌then◌else◌, ◌==◌, eqb, leb,
}

-- A process ends with `log.Fatalf`, or goes on.
pub data Started (A : Type 0) : Type 0 where
  fatal : String → Started A
  running : A → Started A

infixl 5 ◌>>=◌ ◌>>◌
abbrev pub ◌>>=◌ : {A B : Type 0} → Started A → (A → Started B) → Started B
fatal m >>= f = fatal m
running a >>= f = f a

abbrev pub ◌>>◌ : {B : Type 0} → Started (Unit {0}) → Started B → Started B
m >> k = m >>= λ _. k

abbrev pub require : Bool → String → Started (Unit {0})
require b m = if b then running tt else fatal m

abbrev pub env_or : String → String → String
env_or value default_value = if value == "" then default_value else value

abbrev pub is_set : String → Bool
is_set value = not (value == "")

unfoldable pub env_vars_partially_set : String → String → String → Bool
env_vars_partially_set cert key ca =
    let one = λ (v : String). if is_set v then 1 else 0 in
    let set : ℕ = one cert + one key + one ca in not (eqb set 0) && not (eqb set 3)

-- `strconv.ParseBool`
parse_bool : String → Option Bool
parse_bool s =
    if (s == "1") || (s == "t") || (s == "T") || (s == "TRUE") || (s == "true") || (s == "True")
    then some true
    else (if (s == "0")
          || (s == "f")
          || (s == "F")
          || (s == "FALSE")
          || (s == "false")
          || (s == "False")
        then some false
        else none)

enabled_of : Option Bool → Bool
enabled_of none = false
enabled_of (some b) = b

unfoldable pub resolve_pprof_enabled : String → Bool
unfolding parse_bool enabled_of
resolve_pprof_enabled raw = if raw == "" then false else enabled_of (parse_bool raw)

-- `unicode.IsSpace`
is_space : ℕ → Bool
is_space c =
    (leb 9 c && leb c 13)
    || eqb c 32
    || eqb c 0x85
    || eqb c 0xA0
    || eqb c 0x1680
    || (leb 0x2000 c && leb c 0x200A)
    || eqb c 0x2028
    || eqb c 0x2029
    || eqb c 0x202F
    || eqb c 0x205F
    || eqb c 0x3000

trim_left : String → String
trim_left String.[] = String.[]
trim_left (String.◌∷◌ c s) =
    let rest = trim_left s in if is_space (code c) then rest else String.◌∷◌ c s

trim_right : String → String
trim_right String.[] = String.[]
trim_right (String.◌∷◌ c s) =
    let rest = trim_right s in
    if (rest == "") && is_space (code c) then String.[] else String.◌∷◌ c rest

-- `strings.TrimSpace`
trim_space : String → String
trim_space s = trim_right (trim_left s)

-- `strings.Split(s, ",")`, as the first part and the others
pub split_comma : String → String × List String
split_comma String.[] = (String.[], [])
split_comma (String.◌∷◌ c s) =
    let (part, parts) = split_comma s in
    if eqb (code c) b',' then (String.[], part ∷ parts) else (String.◌∷◌ c part, parts)

trimmed_parts : List String → List String
trimmed_parts [] = []
trimmed_parts (p ∷ parts) =
    let rest = trimmed_parts parts in if not (trim_space p == "") then trim_space p ∷ rest else rest

unfoldable pub parse_sentinel_addrs : String → List String
unfolding split_comma trimmed_parts trim_space trim_left trim_right is_space
parse_sentinel_addrs raw =
    if raw == "" then [] else (let (part, parts) = split_comma raw in trimmed_parts (part ∷ parts))

-- `newRedisClient`: which server a client is made for.
pub data RedisTarget : Type 0 where
  single : String → RedisTarget
  failover : String → List String → RedisTarget

target_of : String → String → List String → RedisTarget
target_of redis_addr master [] = single redis_addr
target_of redis_addr master (a ∷ addrs) = failover master (a ∷ addrs)

unfoldable pub new_redis_client : String → String → String → RedisTarget
unfolding target_of
new_redis_client redis_addr sentinel_addrs_raw sentinel_master_name =
    target_of redis_addr sentinel_master_name (parse_sentinel_addrs sentinel_addrs_raw)
