-- ===== src/Network/Protocol.antt =====
-- src/network/protocol.h and src/network/protocol.cpp.
use rex_coin.Base.{ℕ, ◌≡◌, Bool, true, ◌++◌, length, Bytes, codes, eqb, eqb_refl, u32, substr}
use rex_coin.Base.Decimal.{decimal}
use rex_coin.Hasher.{Hasher, double_sha256}

-- `enum class MessageType`
pub data MessageType : Type 0 where
  version verack ping pong get_blocks block tx get_addr addr inv get_data reject : MessageType

-- `(int)type`
pub code_of : MessageType → ℕ
code_of version = 1
code_of verack = 2
code_of ping = 3
code_of pong = 4
code_of get_blocks = 5
code_of block = 6
code_of tx = 7
code_of get_addr = 8
code_of addr = 9
code_of inv = 10
code_of get_data = 11
code_of reject = 12

-- `struct Message`
pub record Message : Type 0 where
  pub magic : ℕ
  pub type : MessageType
  pub size : ℕ
  pub payload : Bytes
  pub checksum : Bytes

-- `Message::serialize`
pub serialize : Message → Bytes
serialize m = decimal m.magic ++ decimal (code_of m.type) ++ decimal m.size ++ m.payload

-- `Message::isValid`
unfoldable pub is_valid : ⦃h : Hasher⦄ → Message → Bool
is_valid m = eqb (substr (double_sha256 m.payload) 0 8) m.checksum

-- `makeMsg`
unfoldable pub make_msg : ⦃h : Hasher⦄ → MessageType → Bytes → Message
make_msg t payload = record {
  magic = 0x52455843;
  type = t;
  size = u32 (length payload);
  payload = payload;
  checksum = substr (double_sha256 payload) 0 8;
}

-- `Protocol::makeVersion`, and the five functions beside it
pub make_version : ⦃h : Hasher⦄ → ℕ → Message
make_version block_height =
    make_msg version
      (codes "version=1,height=" ++ decimal block_height ++ codes ",agent=RexCoin/0.1")

pub make_ping : ⦃h : Hasher⦄ → Message
make_ping = make_msg ping (codes "ping")

pub make_pong : ⦃h : Hasher⦄ → Message → Message
make_pong m = make_msg pong (codes "pong")

pub make_block : ⦃h : Hasher⦄ → Bytes → Message
make_block d = make_msg block d

pub make_tx : ⦃h : Hasher⦄ → Bytes → Message
make_tx d = make_msg tx d

pub make_get_blocks : ⦃h : Hasher⦄ → ℕ → Message
make_get_blocks height = make_msg get_blocks (decimal height)

-- The checksum of a message is that of its payload.
pub is_valid-make_msg :
    ⦃h : Hasher⦄ (t : MessageType) (payload : Bytes) → is_valid (make_msg t payload) ≡ true
unfolding is_valid make_msg
is_valid-make_msg t payload = eqb_refl (substr (double_sha256 payload) 0 8)
