-- ===== src/Sandbox/Devices.antt =====
-- What a sandbox hands to its VM and to the host: devices (vmm/sandbox/src/device.rs and
-- vmm/sandbox/src/vm.rs), and the images and directories of vmm/sandbox/src/storage.
use kuasar.Prelude.{ℕ, String, Bool, List}
use kuasar.Device.{BusType, pci, pcie, ccw, scsi, mmio, serial, null}

pub record BlockDeviceInfo : Type 0 where
  pub id : String
  pub path : String
  pub read_only : Bool

-- The backend is the path of a pipe.
pub record CharDeviceInfo : Type 0 where
  pub id : String
  pub chardev_id : String
  pub name : String
  pub pipe : String

-- The other devices are those of networks.
pub data DeviceInfo : Type 0 where
  block : BlockDeviceInfo → DeviceInfo
  char_device : CharDeviceInfo → DeviceInfo

pub data BlockDriver : Type 0 where
  virtio_blk virtio_scsi virtio_mmio : BlockDriver

unfoldable pub from_bus_type : BusType → BlockDriver
from_bus_type pci = virtio_blk
from_bus_type scsi = virtio_scsi
from_bus_type mmio = virtio_mmio
from_bus_type pcie = virtio_blk
from_bus_type ccw = virtio_blk
from_bus_type serial = virtio_blk
from_bus_type null = virtio_blk

unfoldable pub to_driver_string : BlockDriver → String
to_driver_string virtio_blk = "blk"
to_driver_string virtio_mmio = "mmioblk"
to_driver_string virtio_scsi = "scsi"

-- `std::fs::FileType`.
pub data FileType : Type 0 where
  directory regular symlink block_special char_special fifo socket : FileType

pub data BlockFs : Type 0 where
  ext4 xfs : BlockFs

unfoldable pub as_str : BlockFs → String
as_str ext4 = "ext4"
as_str xfs = "xfs"

pub record DirTreeStats : Type 0 where
  pub size_mb : ℕ
  pub entries : ℕ

pub record ScannedFile : Type 0 where
  pub path : String
  pub rel : String
  pub mode : ℕ

-- The directories are relative to the one that was scanned.
pub record ScannedDir : Type 0 where
  pub file_count : ℕ
  pub total_bytes : ℕ
  pub dirs : List String
  pub files : List ScannedFile
  pub symlinks : List String
