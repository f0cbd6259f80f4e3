-- ===== src/Mpsse/Traffic/Bytes.antt =====
-- The functions of mpsse.c that move bytes, and the one that closes the device.
use ice9_api.Prelude.{
  ℕ, zero, suc, ◌-◌, ◌/◌, ◌%◌, List, [], ◌∷◌, ◌++◌, append_assoc, pure, ◌>>◌, ◌==◌, take, drop,
}
use ice9_api.Ftdi.{
  FtdiCall, usleep, ftdi_do, cmd_byte, mc_setb_low, mc_readb_low, set_latency_timer, usb_close,
  deinit, disable_bitbang,
}
use ice9_api.Mpsse.{
  mpsse_recv_byte, mpsse_send_byte, send_header, mpsse_send_spi, recv_bytes, mpsse_xfer_spi,
  mpsse_set_gpio, mpsse_readb_low, mpsse_close,
}
use ice9_api.Mpsse.Traffic.{nothing, IsClean, IsClean-if, IsClean-bind, IsClean-pure, IsClean-then}
use ice9_api.Mpsse.Traffic.Errors.{IsClean-mpsse_recv_byte, IsClean-write_all}

pub IsClean-mpsse_send_byte : (byte : ℕ) → IsClean nothing (mpsse_send_byte byte)
unfolding mpsse_send_byte
IsClean-mpsse_send_byte byte = IsClean-write_all (byte ∷ []) 1

IsClean-send_header : (command n : ℕ) → IsClean nothing (send_header command n)
IsClean-send_header command n = IsClean-then (IsClean-mpsse_send_byte command) (
    IsClean-then (IsClean-mpsse_send_byte ((n - 1) % 256))
      (IsClean-mpsse_send_byte ((n - 1) / 256 % 256)))

pub IsClean-mpsse_send_spi : (bytes : List ℕ) (n : ℕ) → IsClean nothing (mpsse_send_spi bytes n)
unfolding mpsse_send_spi
IsClean-mpsse_send_spi bytes n =
    IsClean-if nothing (n == 0) _ _ (IsClean-pure tt)
      (IsClean-then (IsClean-send_header _ n) (IsClean-write_all (take n bytes) n))

IsClean-recv_bytes : (n : ℕ) → IsClean nothing (recv_bytes n)
unfolding recv_bytes
IsClean-recv_bytes zero = IsClean-pure []
IsClean-recv_bytes (suc n) = IsClean-bind nothing mpsse_recv_byte _ IsClean-mpsse_recv_byte (λ byte.
    IsClean-bind nothing (recv_bytes n) _ (IsClean-recv_bytes n)
      (λ rest. IsClean-pure (byte ∷ rest)))

pub IsClean-mpsse_xfer_spi : (bytes : List ℕ) (n : ℕ) → IsClean nothing (mpsse_xfer_spi bytes n)
unfolding mpsse_xfer_spi
IsClean-mpsse_xfer_spi bytes n = IsClean-if nothing (n == 0) _ _ (IsClean-pure bytes) (
    IsClean-then (IsClean-send_header _ n) (
      IsClean-then (IsClean-write_all (take n bytes) n) (
        IsClean-bind nothing (recv_bytes n) _ (IsClean-recv_bytes n)
          (λ received. IsClean-pure (received ++ drop n bytes)))))

pub IsClean-mpsse_set_gpio : (gpio direction : ℕ) → IsClean nothing (mpsse_set_gpio gpio direction)
unfolding mpsse_set_gpio
IsClean-mpsse_set_gpio gpio direction =
    IsClean-then (IsClean-mpsse_send_byte (cmd_byte mc_setb_low))
      (IsClean-then (IsClean-mpsse_send_byte gpio) (IsClean-mpsse_send_byte direction))

pub IsClean-mpsse_readb_low : IsClean nothing mpsse_readb_low
unfolding mpsse_readb_low
IsClean-mpsse_readb_low =
    IsClean-then (IsClean-mpsse_send_byte (cmd_byte mc_readb_low)) IsClean-mpsse_recv_byte

-- The calls that close the device.
abbrev pub closing : ℕ → List FtdiCall
closing latency = set_latency_timer latency ∷ disable_bitbang ∷ usb_close ∷ deinit ∷ []

pub IsClean-close :
    {A : Type 0} (n : ℕ) (a : A)
    → IsClean
        (λ latency. closing latency ++ usleep n ∷ [])
        (mpsse_close >> (ftdi_do (usleep n) >> pure a))
unfolding mpsse_close
IsClean-close n a = record {
  at = λ rs s. record { middle = []; harmless = tt; leads = simp append_assoc };
}
