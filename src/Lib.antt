-- ===== src/Lib.antt =====
-- Verification of gprovision, the software that provisions, restores and boots appliances.
--
-- The parts modelled are those that decide something: the driver of the CrystalFontz displays
-- (pkg/hw/cfa), through which the user sees progress and chooses images; the log stack (pkg/log),
-- to which all parts write; the history of images (pkg/recovery/history); the choice of an update
-- (pkg/recovery/archive), which asks the history; the order of network interfaces and the processors of
-- their interrupts (pkg/hw/nic, pkg/hw/cpu); the UEFI boot entries (pkg/hw/uefi) by which the appliance
-- boots or is restored, and the versions of kernels (pkg/fileutil/kver); which variant a machine is (pkg/appliance); the checks and steps of its
-- manufacturing (pkg/mfg); the RAID metadata that survive the erasure of its disks (pkg/erase/raid); and
-- the modes of a start of the machine and the tasks before a reboot (pkg/init). What was configured under Windows is
-- read by pkg/netexport.
-- The log stack writes to the display (pkg/log/lcd). The image that is chosen gets a disk tag
-- (pkg/disktag), under which the history is told of imaging and of each boot, so that an image that
-- failed too often is refused the next time.
--
--   Prelude         shared names: Boolean tests, lists with their lengths, bytes and strings
--   Cfa.Errors      errors and results of the driver
--   Cfa.Cmd, Cfa.Command, Cfa.Packet    command.go and packet.go: command bytes, frames, CRC
--   Cfa.Serial      serial.go `GetPacket`: packets out of a byte stream
--   Cfa.Incoming    serial.go `handleIncoming`: key events and the queue of answers
--   Cfa.Retry       serial.go `getPkt`, `sendPktRetry`
--   Cfa.Key, Cfa.Buttons, Cfa.Legends   buttons.go: keys, masks, legends
--   Cfa.Text        util.go: fitting, padding and cutting of text
--   Cfa.Display     lcd.go and util.go: what is sent to put text on the display
--   Cfa.Scroll      blurb.go: text that scrolls
--   Cfa.View, Cfa.Question, Cfa.Confirm  menu.go and question.go
--   Log.Entries     log/flags, mem.go, console.go, file.go, lcd/lcd.go: what each logger puts out
--   Log.Stack       stackable.go: adding and removing loggers
--   Log.Files       attr.go, and `AddNamedFileLog` of file.go
--   History         recovery/history/history.go
--   Archive         recovery/archive/ar.go and disktag/dt.go
--   Archive.Dates   recovery/archive/sort.go: dates in the names of updates
--   Nic             hw/nic/sort_mac.go
--   Nic.Rss         hw/nic/irq.go, rss.go: interrupts and the processors they are bound to
--   Nic.Xps         hw/nic/xps.go: masks of processors for the queues
--   Cpu             hw/cpu/topology.go: sets of processors by their use
--   Appliance.Identify, Appliance.Processor   appliance/identify.go: the variant of a machine
--   Appliance.Prefixes    appliance/variant.go `MACPrefixes`
--   Boot.Mode, Boot.Root  init/normal.go and `getRoot` of init.go: what a start of the machine does
--   Boot.Tasks      init/housekeeping/hk.go: the tasks before a reboot
--   Kver            fileutil/kver/kver.go: the version that a kernel image carries
--   Intel           netexport/importIntel.go: interfaces and VLANs of an exported configuration
--   Qa.Tally, Qa.Devices  mfg/qa/devices.go: devices on a bus, counted and compared
--   Qa.Disks        mfg/qa/disks.go, and `SizeToleranceMatch` of hw/block/block.go
--   Qa.Dmi, Qa.Specs      mfg/qa/dmi.go and qa.go: DMI data, firmware, the specs as a whole
--   ConfigStep      mfg/configStep/step.go: steps, their commands and files
--   Raid.Align, Raid.Device     erase/raid/device.go: aligned reads and writes
--   Raid.Metadata   erase/raid/device.go, imsm.go, ddf.go: detection, backup and restore
--   Raid.Arrays     erase/raid/array.go: devices put together into arrays
--   Uefi.Nodes, Uefi.DevicePath  hw/uefi/efiD*.go: device paths of boot entries
--   Uefi.Vars       hw/uefi/vars.go `BootVar`: boot entries out of the bytes of a variable
--   Uefi.Boot       hw/uefi/boot.go and `Ours` of vars.go
--   Tests           runs and instances at concrete inputs
--
-- State is passed explicitly: an operation takes the receiver's fields as a record and returns the
-- new record. Bytes, words and `uint`s are natural numbers with the wrap-around written out. A
-- panic is `none`, and in Uefi the value `panicked` of Uefi.Outcome, which there also stands for a
-- loop that would not end: the loops of `ParseFilePathList` and `BootVar` have as many rounds as
-- there are bytes, which is enough, since a round of the first takes four bytes and one of the second
-- sees a new index. `rawAlignedRead` doubles the alignment in each of its 16 rounds and ends above
-- 16384; `CreateSetWeighted` makes a round for each processor that its set lacks.
-- The loops of `XpsConfig` have 64 rounds, since each round goes to the next of 64 bits. Channels are bounded lists; a stack of loggers is the list along `next`, top
-- first. Loops are structural: over the text, the items, the rounds that are left. `fit` makes at
-- most one round for each row that is wanted, and `sendPktRetry` one for each try that is left. The
-- menus' loops run over the events that arrive.
--
-- The environment is a parameter: the bytes and errors that a port delivers, the answers of the
-- device, the keys pressed and the timeouts, the contents of the history file after JSON decoding,
-- whether an update extracts, and Go's `sort.Sort`, of which only is used that it permutes; where a
-- disk accepts an access, what dmidecode prints, regular expressions, the commands and downloads of a
-- step, the order in which a map's keys come, and comparisons in floating point.
-- Not modelled: goroutines and their timers, opening of devices, formatting of messages, and the
-- packages that mount, partition, erase and execute.
pub mod Prelude
pub mod Archive
pub mod Cfa
pub mod History
pub mod Log
pub mod Nic
pub mod Qa
pub mod Raid
pub mod Appliance
pub mod ConfigStep
pub mod Cpu
pub mod Boot
pub mod Kver
pub mod Intel
pub mod Tests
pub mod Uefi
