-- ===== src/Guardian/Host.antt =====
-- scripts/macos/bootmux-network-guardian.py, `class Host`: the seam through which the program sees
-- and changes the machine. The machine is a state that only `run` changes.
use bootmux.Base.{ℕ, String, Bool, Option, List, ℤ}
use bootmux.Guardian.Data.{UsbDevice, Iface, Route, Service, Ipv4, Dns}

-- What `run` returns.
pub record Reply : Type 0 where
  pub returncode : ℤ
  pub stdout : String
  pub stderr : String

pub record Host : Type 1 where
  pub State : Type 0
  pub usb_devices : State → List UsbDevice
  pub interfaces : State → List Iface
  pub routes : State → List Route
  pub services : State → List Service
  pub service_order : State → List String
  pub wifi_device : State → Option String
  pub wifi_power : State → String → Option Bool
  pub wifi_ssid : State → String → Option String
  pub wifi_ipv4 : State → String → Ipv4
  pub dns : State → String → Dns
  pub heartbeat : State → String → Bool
  pub now : State → ℕ
  pub run : List String → State → Reply × State
