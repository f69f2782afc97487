-- ===== src/Cli.antt =====
-- bin/zk-ress/src/cli.rs: the addresses and paths that the arguments stand for. Parsing the command line
-- is clap's; the paths of reth are parameters.
use Prim.Native.Nat.Ordering.{eq}
use Prim.Native.String.{String}
use Prim.Native.String as Text
use zk_ress.Base.{
  ℕ, ◌≡◌, refl, Bool, true, false, Option, none, some, Bool-cases, inl, inr, if◌then◌else◌,
  unwrap_or, map_option,
}
use zk_ress.Env.{Result, ok}
use zk_ress.Results.{◌>>=◌}

abbrev pub same_text : String → String → Bool
same_text s t = elim (Text.compare s t) [ eq ↦ true | _ ↦ false ]

-- Paths, and what is read from files.
pub record Paths : Type 1 where
  pub PathBuf : Type 0
  pub root_join : PathBuf → String → PathBuf
  pub system_data_dir : Option PathBuf
  pub PlatformPath : Type 0
  pub platform_default : PlatformPath
  pub platform_join : PlatformPath → String → PlatformPath
  pub LookupError : Type 0
  pub platform_from_str : String → Result PlatformPath LookupError
  pub platform_fmt : PlatformPath → String
  pub Chain : Type 0
  pub chain_to_string : Chain → String
  pub ChainPath : Type 0
  pub chain_path_new : PlatformPath → Chain → ChainPath
  pub p2p_secret : ChainPath → PathBuf
  pub JwtSecret : Type 0
  pub JwtError : Type 0
  pub jwt_from_file : PathBuf → Result JwtSecret JwtError
  pub get_or_create_jwt : PathBuf → Result JwtSecret JwtError

-- `SocketAddr`, over an IP address.
pub record SocketAddr (A : Type 0) : Type 0 where
  pub ip : A
  pub port : ℕ

module _ (paths : Paths) where
  pub record ZkRessNetworkArgs (A : Type 0) : Type 0 where
    pub addr : A
    pub port : ℕ
    pub p2p_secret_key : Option paths.PathBuf
    pub max_active_connections : ℕ

  unfoldable pub listener_addr : {A : Type 0} → ZkRessNetworkArgs A → SocketAddr A
  listener_addr this = record { ip = this.addr; port = this.port }

  unfoldable pub network_secret_path :
      {A : Type 0} → ZkRessNetworkArgs A → paths.ChainPath → paths.PathBuf
  network_secret_path this data_dir = unwrap_or this.p2p_secret_key (paths.p2p_secret data_dir)

  pub record ZkRessRpcArgs (A : Type 0) : Type 0 where
    pub auth_addr : A
    pub auth_port : ℕ
    pub auth_jwtsecret : Option paths.PathBuf

  unfoldable pub auth_rpc_addr : {A : Type 0} → ZkRessRpcArgs A → SocketAddr A
  auth_rpc_addr this = record { ip = this.auth_addr; port = this.auth_port }

  unfoldable pub auth_jwt_secret :
      {A : Type 0} → ZkRessRpcArgs A → paths.PathBuf → Result paths.JwtSecret paths.JwtError
  auth_jwt_secret this default_jwt_path = elim this.auth_jwtsecret [
    | some fpath ↦ paths.jwt_from_file fpath
    | none ↦ paths.get_or_create_jwt default_jwt_path
  ]

  unfoldable pub data_dir : Option paths.PathBuf
  data_dir = map_option (λ root. paths.root_join root "zk-ress") paths.system_data_dir

  abbrev pub MaybePlatformPath : Type 0
  MaybePlatformPath = Option paths.PlatformPath

  abbrev pub maybe_default : MaybePlatformPath
  maybe_default = none

  unfoldable pub unwrap_or_chain_default : MaybePlatformPath → paths.Chain → paths.ChainPath
  unwrap_or_chain_default this chain =
      paths.chain_path_new
        (unwrap_or this (paths.platform_join paths.platform_default (paths.chain_to_string chain)))
        chain

  -- `Display`
  unfoldable pub fmt : MaybePlatformPath → String
  fmt none = "default"
  fmt (some path) = paths.platform_fmt path

  -- `FromStr`
  unfoldable pub from_str : String → Result MaybePlatformPath paths.LookupError
  from_str s =
      if same_text s "default"
      then ok none
      else (paths.platform_from_str s >>= λ path. ok (some path))

  -- What is displayed reads back as the same, if platform paths do; but a platform path that is
  -- displayed as `default` reads back as no path.
  pub from_str-fmt :
      (this : MaybePlatformPath)
      → ((path : paths.PlatformPath) → paths.platform_from_str (paths.platform_fmt path) ≡ ok path)
      → from_str (fmt this) ≡ ok (if same_text (fmt this) "default" then none else this)
  unfolding fmt from_str
  from_str-fmt none reads = refl
  from_str-fmt (some path) reads =
      elim (Bool-cases (same_text (paths.platform_fmt path) "default")) [
        | inl same ↦ rw (same) refl
        | inr other ↦ rw (other, reads path) refl
      ]
