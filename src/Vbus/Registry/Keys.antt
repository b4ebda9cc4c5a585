-- ===== src/Vbus/Registry/Keys.antt =====
-- The registry's keys: one number for three addresses.
use vbus2mqtt.Prelude.{ℕ, ◌+◌, ◌*◌, ◌%◌, ◌^◌, ◌≡◌, ◌&&◌, some, arith, ◌==◌, if◌then◌else◌}
use vbus2mqtt.Prelude.Bits.{bit_or-shifted}
use vbus2mqtt.Vbus.Frame.{IsWord}
use vbus2mqtt.Vbus.Registry.{PacketDef, Registry, pkey, find, lookup, register}

pkey-sum :
    (src dst cmd : ℕ)
    → IsWord src
    → IsWord dst
    → IsWord cmd
    → pkey src dst cmd ≡ src * 2 ^ 32 + dst * 2 ^ 16 + cmd
unfolding pkey
pkey-sum src dst cmd hs hd hc =
    rw
      (
        no_wrap_32,
        no_wrap_16,
        bit_or-shifted 32 src (dst * 2 ^ 16) (omega arith),
        regroup,
        bit_or-shifted 16 (src * 2 ^ 16 + dst) cmd hc,
      )
      (omega arith)
  where
    no_wrap_32 : src * 2 ^ 32 % 2 ^ 64 ≡ src * 2 ^ 32
    no_wrap_32 = omega arith

    no_wrap_16 : dst * 2 ^ 16 % 2 ^ 64 ≡ dst * 2 ^ 16
    no_wrap_16 = omega arith

    regroup : src * 2 ^ 32 + dst * 2 ^ 16 ≡ (src * 2 ^ 16 + dst) * 2 ^ 16
    regroup = omega arith

-- Two keys are equal only if source, destination and command are.
pub pkey-injective :
    (src dst cmd src' dst' cmd' : ℕ)
    → IsWord src
    → IsWord dst
    → IsWord cmd
    → IsWord src'
    → IsWord dst'
    → IsWord cmd'
    → pkey src dst cmd ≡ pkey src' dst' cmd'
    → (src ≡ src') × (dst ≡ dst') × (cmd ≡ cmd')
pkey-injective src dst cmd src' dst' cmd' a b c a' b' c' e =
    omega (arith, pkey-sum src dst cmd a b c, pkey-sum src' dst' cmd' a' b' c')

-- After `Register` the packet of these addresses is the registered one, and the packet of any
-- other addresses is what it was.
pub lookup-register :
    {W : Type 0} (r : Registry W) (src dst cmd src' dst' cmd' : ℕ) (def : PacketDef W)
    → IsWord src
    → IsWord dst
    → IsWord cmd
    → IsWord src'
    → IsWord dst'
    → IsWord cmd'
    → lookup (register r src dst cmd def) src' dst' cmd'
      ≡ (if src == src' && dst == dst' && cmd == cmd' then some def else lookup r src' dst' cmd')
unfolding lookup register find
lookup-register r src dst cmd src' dst' cmd' def a b c a' b' c' =
    ground (arith, pkey-sum src dst cmd a b c, pkey-sum src' dst' cmd' a' b' c')
