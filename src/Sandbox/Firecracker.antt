-- ===== src/Sandbox/Firecracker.antt =====
-- internal/sandbox/firecracker.go: a driver whose every method fails and changes nothing.
use workspaces.Common.{text, [], Error, message, some, fail}
use workspaces.Sandbox.Driver.{Driver}

unfoldable pub not_available : Error
not_available = message (text "firecracker driver: not implemented")

unfoldable pub firecracker : {W : Type 0} → Driver W
firecracker = record {
  create = λ ctx cfg. fail not_available;
  exec = λ ctx id cmd. fail not_available;
  write_file = λ ctx id path content. fail not_available;
  read_file = λ ctx id path. fail not_available;
  destroy = λ ctx id. fail not_available;
  status = λ ctx id w. (([], some not_available), w);
  ip = λ ctx id. fail not_available;
}
