-- ===== src/Config.antt =====
-- config.go: the configuration as a function of the environment. A variable that is not set is the
-- empty text, as os.Getenv gives it. An int is its 64 bits as a natural number. Floats and
-- strconv.ParseFloat are parameters.
pub mod Lists
use starrocks_shadow_proxy.Prelude.{
  ℕ, zero, suc, ◌+◌, ◌-◌, ◌*◌, ◌%◌, ◌^◌, Bool, true, false, ◌&&◌, ◌||◌, Bytes, List, [], ◌∷◌, ltb,
  leb, ◌==◌, if◌then◌else◌, Option, none, some,
}
use starrocks_shadow_proxy.Prelude.Text.{codes, bytes_eq, is_empty, to_lower, trim_space, contains}

abbrev pub Env : Type 0
Env = Bytes → Bytes

-- `isPostgresProtocol`
unfoldable pub is_postgres_protocol : Bytes → Bool
is_postgres_protocol protocol =
    contains (codes "postgres" ∷ codes "postgresql" ∷ codes "pg" ∷ []) (to_lower protocol)

-- `getEnv`
unfoldable pub get_env : Env → Bytes → Bytes → Bytes
get_env env key default = if is_empty (env key) then default else env key

unfoldable pub digits_from : ℕ → Bytes → Option ℕ
digits_from acc [] = some acc
digits_from acc (c ∷ cs) =
    let rest = digits_from (acc * 10 + (c - 48)) cs in
    if leb b'0' c && leb c b'9' then rest else none

unfoldable pub unsigned : Bytes → Option ℕ
unsigned s = if is_empty s then none else digits_from 0 s

-- `strconv.Atoi`: an optional sign and decimal digits, in the range of 64 bits.
abbrev pub in_range : Option ℕ → ℕ → (ℕ → ℕ) → Option ℕ
in_range none bound f = none
in_range (some n) bound f = if ltb n bound then some (f n) else none

unfoldable pub atoi : Bytes → Option ℕ
atoi [] = none
atoi (c ∷ cs) =
    if c == b'-'
    then in_range (unsigned cs) (2 ^ 63 + 1) (λ n. (2 ^ 64 - n) % 2 ^ 64)
    else if c == b'+'
    then in_range (unsigned cs) (2 ^ 63) (λ n. n)
    else in_range (unsigned (c ∷ cs)) (2 ^ 63) (λ n. n)

abbrev pub or_default : {A : Type 0} → Option A → A → A
or_default none d = d
or_default (some a) d = a

-- `getEnvInt`
unfoldable pub get_env_int : Env → Bytes → ℕ → ℕ
get_env_int env key default =
    if is_empty (env key) then default else or_default (atoi (env key)) default

-- `strings.Split(value, ",")`: the first part, and the others.
unfoldable pub split_comma : Bytes → Bytes × List Bytes
split_comma [] = ([], [])
split_comma (c ∷ cs) =
    let (part, parts) = split_comma cs in
    if◌then◌else◌ {A = Bytes × List Bytes} (c == b',') ([], part ∷ parts) (c ∷ part, parts)

-- The parts without the spaces around them, but for empty ones.
unfoldable pub nonempty_parts : List Bytes → List Bytes
nonempty_parts [] = []
nonempty_parts (p ∷ ps) =
    let rest = nonempty_parts ps in if is_empty (trim_space p) then rest else trim_space p ∷ rest

abbrev pub or_list : List Bytes → List Bytes → List Bytes
or_list [] default = default
or_list (x ∷ xs) default = x ∷ xs

-- `getEnvList`
unfoldable pub get_env_list : Env → Bytes → List Bytes → List Bytes
get_env_list env key default =
    let (part, parts) = split_comma (env key) in
    if is_empty (env key) then default else or_list (nonempty_parts (part ∷ parts)) default

-- `time.Duration(n) * unit`, on 64 bits
abbrev pub duration : ℕ → ℕ → ℕ
duration n unit = n * unit % 2 ^ 64

abbrev pub second : ℕ
second = 1000000000

abbrev pub millisecond : ℕ
millisecond = 1000000

module _ (Float : Type 0) (parse_float : Bytes → Option Float) (one : Float) where
  -- `getEnvFloat`
  unfoldable pub get_env_float : Env → Bytes → Float → Float
  get_env_float env key default =
      if is_empty (env key) then default else or_default (parse_float (env key)) default

  pub record Config : Type 0 where
    pub protocol : Bytes
    pub listen_addr : Bytes
    pub primary_host : Bytes
    pub primary_port : Bytes
    pub primary_user : Bytes
    pub primary_password : Bytes
    pub shadow_host : Bytes
    pub shadow_port : Bytes
    pub shadow_user : Bytes
    pub shadow_password : Bytes
    pub metrics_port : Bytes
    pub tls_enabled : Bool
    pub tls_cert_file : Bytes
    pub tls_key_file : Bytes
    pub primary_tls_enabled : Bool
    pub primary_tls_ca_file : Bytes
    pub primary_tls_insecure_skip_verify : Bool
    pub shadow_queue_size : ℕ
    pub shadow_read_timeout : ℕ
    pub shadow_drain_timeout : ℕ
    pub shadow_response_drain_timeout : ℕ
    pub shadow_tls_enabled : Bool
    pub shadow_tls_insecure : Bool
    pub query_log_gcs_bucket : Bytes
    pub query_log_gcs_prefix : Bytes
    pub query_log_flush_interval : ℕ
    pub query_log_batch_size : ℕ
    pub query_log_buffer_size : ℕ
    pub shadow_filter_mode : Bytes
    pub shadow_filter_sql_operations : List Bytes
    pub shadow_filter_patterns : List Bytes
    pub shadow_sample_rate : Float
    pub debug_log : Bool

  abbrev pub is_on : Env → Bytes → Bool
  is_on env key = bytes_eq (get_env env key (codes "false")) (codes "true")

  -- `loadConfig`
  unfoldable pub load_config : Env → Config
  load_config env =
      let protocol = to_lower (get_env env (codes "PROTOCOL") (codes "mysql")) in
      let postgres = is_postgres_protocol protocol in
      let default_listen = if postgres then codes ":5432" else codes ":3306" in
      let default_backend_port = if postgres then codes "5432" else codes "9030" in
      record {
        protocol = protocol;
        listen_addr = get_env env (codes "LISTEN_ADDR") default_listen;
        primary_host = get_env env (codes "PRIMARY_HOST") [];
        primary_port = get_env env (codes "PRIMARY_PORT") default_backend_port;
        primary_user = get_env env (codes "PRIMARY_USER") (codes "root");
        primary_password = get_env env (codes "PRIMARY_PASSWORD") [];
        shadow_host = get_env env (codes "SHADOW_HOST") [];
        shadow_port = get_env env (codes "SHADOW_PORT") default_backend_port;
        shadow_user = get_env env (codes "SHADOW_USER") (codes "root");
        shadow_password = get_env env (codes "SHADOW_PASSWORD") [];
        metrics_port = get_env env (codes "METRICS_PORT") (codes ":9090");
        tls_enabled = is_on env (codes "TLS_ENABLED");
        tls_cert_file = get_env env (codes "TLS_CERT_FILE") (codes "/certs/tls.crt");
        tls_key_file = get_env env (codes "TLS_KEY_FILE") (codes "/certs/tls.key");
        primary_tls_enabled = is_on env (codes "PRIMARY_TLS_ENABLED");
        primary_tls_ca_file = get_env env (codes "PRIMARY_TLS_CA_FILE") [];
        primary_tls_insecure_skip_verify = is_on env (codes "PRIMARY_TLS_INSECURE_SKIP_VERIFY");
        shadow_queue_size = get_env_int env (codes "SHADOW_QUEUE_SIZE") 10000;
        shadow_read_timeout =
            duration (get_env_int env (codes "SHADOW_READ_TIMEOUT_SECONDS") 30) second;
        shadow_drain_timeout =
            duration (get_env_int env (codes "SHADOW_DRAIN_TIMEOUT_MS") 60000) millisecond;
        shadow_response_drain_timeout =
            duration (get_env_int env (codes "SHADOW_RESPONSE_DRAIN_TIMEOUT_MS") 100) millisecond;
        shadow_tls_enabled = is_on env (codes "SHADOW_TLS_ENABLED");
        shadow_tls_insecure = is_on env (codes "SHADOW_TLS_INSECURE");
        query_log_gcs_bucket = get_env env (codes "QUERY_LOG_GCS_BUCKET") [];
        query_log_gcs_prefix = get_env env (codes "QUERY_LOG_GCS_PREFIX") (codes "query-logs");
        query_log_flush_interval =
            duration (get_env_int env (codes "QUERY_LOG_FLUSH_INTERVAL_SECONDS") 120) second;
        query_log_batch_size = get_env_int env (codes "QUERY_LOG_BATCH_SIZE") 1000;
        query_log_buffer_size = get_env_int env (codes "QUERY_LOG_BUFFER_SIZE") 10000;
        shadow_filter_mode = get_env env (codes "SHADOW_FILTER_MODE") [];
        shadow_filter_sql_operations = get_env_list env (codes "SHADOW_FILTER_SQL_OPERATIONS") [];
        shadow_filter_patterns = get_env_list env (codes "SHADOW_FILTER_PATTERNS") [];
        shadow_sample_rate = get_env_float env (codes "SHADOW_SAMPLE_RATE") one;
        debug_log = is_on env (codes "DEBUG_LOG");
      }
