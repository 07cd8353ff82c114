-- ===== src/Tunnel/Kcp.antt =====
-- kconfig.go: the settings of KCP and the keys of its ciphers. The decoding of the file is an
-- argument, a function on the settings that stand before it, and so is the derived key.
use gole.Base.{
  ℕ, ◌≤◌, ◌≡◌, refl, ◌⊎◌, inl, inr, Bool, true, false, Option, none, some, Bytes, length, take,
  length-take, arith, if◌then◌else◌, ◌==◌, bytes_eq, codes,
}
pub mod Keys

pub record KcpConfig : Type 0 where
  pub key : Bytes
  pub crypt : Bytes
  pub mode : Bytes
  pub mtu : ℕ
  pub snd_wnd : ℕ
  pub rcv_wnd : ℕ
  pub data_shard : ℕ
  pub parity_shard : ℕ
  pub dscp : ℕ
  pub ack_nodelay : Bool
  pub no_delay : ℕ
  pub interval : ℕ
  pub resend : ℕ
  pub no_congestion : ℕ
  pub sock_buf : ℕ

abbrev pub default_config : KcpConfig
default_config = record {
  key = codes "somekey";
  crypt = codes "xor";
  mode = codes "fast2";
  mtu = 1350;
  snd_wnd = 1024;
  rcv_wnd = 1024;
  data_shard = 10;
  parity_shard = 3;
  dscp = 0;
  ack_nodelay = false;
  no_delay = 0;
  interval = 50;
  resend = 0;
  no_congestion = 0;
  sock_buf = 4194304;
}

abbrev pub with_speed : ℕ → ℕ → KcpConfig → KcpConfig
with_speed no_delay interval conf = record conf {
  no_delay = no_delay;
  interval = interval;
  resend = 2;
  no_congestion = 1;
}

-- The switch on the mode
unfoldable pub apply_mode : KcpConfig → KcpConfig
apply_mode conf =
    if conf.mode == codes "normal"
    then with_speed 0 40 conf
    else if conf.mode == codes "fast"
    then with_speed 0 30 conf
    else if conf.mode == codes "fast2"
    then with_speed 1 20 conf
    else if conf.mode == codes "fast3"
    then with_speed 1 10 conf
    else conf

-- getKCPConfig; `none` where the file cannot be opened
unfoldable pub get_kcp_config : Option (KcpConfig → KcpConfig) → KcpConfig
get_kcp_config none = apply_mode default_config
get_kcp_config (some decode) = apply_mode (decode default_config)

-- The constructors of kcp's ciphers
pub data Cipher : Type 0 where
  sm4 : Cipher
  tea : Cipher
  simple_xor : Cipher
  no_cipher : Cipher
  aes : Cipher
  blowfish : Cipher
  twofish : Cipher
  cast5 : Cipher
  triple_des : Cipher
  xtea : Cipher
  salsa20 : Cipher

-- getKCPBlockCipher: the constructor and its key, with the name that is left in the settings
unfoldable pub get_kcp_block_cipher : Bytes → Bytes → Cipher × (Bytes × Bytes)
get_kcp_block_cipher pass crypt =
    if crypt == codes "sm4"
    then (sm4, (take 16 pass, crypt))
    else if crypt == codes "tea"
    then (tea, (take 16 pass, crypt))
    else if crypt == codes "xor"
    then (simple_xor, (pass, crypt))
    else if crypt == codes "none"
    then (no_cipher, (pass, crypt))
    else if crypt == codes "aes-128"
    then (aes, (take 16 pass, crypt))
    else if crypt == codes "aes-192"
    then (aes, (take 24 pass, crypt))
    else if crypt == codes "blowfish"
    then (blowfish, (pass, crypt))
    else if crypt == codes "twofish"
    then (twofish, (pass, crypt))
    else if crypt == codes "cast5"
    then (cast5, (take 16 pass, crypt))
    else if crypt == codes "3des"
    then (triple_des, (take 24 pass, crypt))
    else if crypt == codes "xtea"
    then (xtea, (take 16 pass, crypt))
    else if crypt == codes "salsa20"
    then (salsa20, (pass, crypt))
    else (aes, (pass, codes "aes"))
